-- ===== src/History/Host.antt =====
-- crates/steel/src/history/eip2935, `from_headers` and what it calls on the host: the history that
-- links a block to a later one.
use steel.Prelude.{
  ℕ, zero, suc, ◌+◌, ◌%◌, ◌^◌, B256, Address, List, [], ◌∷◌, ◌++◌, ltb, bytes_eq, if◌then◌else◌,
}
use steel.Outcome.{Outcome, ok, guard, message, ◌>>=◌, ◌>>◌}
use steel.Header.{EvmBlockHeader, Sealed, seal_slow}
use steel.Platform.{Platform}
use steel.History.Contract.{SingleContractState, AccountProof, from_proof}
use steel.History.HistoryStorage
use steel.History.Eip2935.{StateCommit, HistoryCommit}

-- What the host asks the RPC provider for: the header of a block, and the proof of an account and of
-- some slots at the block with a hash, with the code hash that the response tells.
pub record Provider (H : Type 0) : Type 0 where
  pub get_header : ℕ → Outcome H
  pub get_proof : B256 → Address → List ℕ → Outcome (B256 × AccountProof)

-- `(start..end).step_by(HISTORY_SERVE_WINDOW)`, of which there are at most `end` numbers
unfoldable pub step_by : ℕ → ℕ → ℕ → List ℕ
step_by zero start end = []
step_by (suc fuel) start end =
    let rest = step_by fuel (start + HistoryStorage.history_serve_window) end in
    if ltb start end then start ∷ rest else []

-- the numbers of the blocks of the history; the sum of two u64 wraps
unfoldable pub schedule : ℕ → ℕ → List ℕ
unfolding step_by
schedule execution commitment =
    step_by commitment ((execution + HistoryStorage.history_serve_window) % 2 ^ 64) commitment
    ++ (commitment ∷ [])

module _ (p : Platform) {H : Type 0} (ops : EvmBlockHeader H) (provider : Provider H)
    (fuel : ℕ) where
  -- `HistoryStorageContract::get_unchecked` of the host, at the block with a hash
  unfoldable pub preflight : B256 → ℕ → Outcome (B256 × SingleContractState)
  unfolding from_proof HistoryStorage.new HistoryStorage.get_unchecked
  preflight block block_number = do
    (code_hash, proof) ←
        provider.get_proof block HistoryStorage.address
          (block_number % HistoryStorage.history_serve_window ∷ [])
    guard (bytes_eq code_hash HistoryStorage.code_hash)
        (message "no or invalid history storage contract deployed")
    state ← from_proof p fuel HistoryStorage.address proof
    hash ← HistoryStorage.new p state >>= λ contract.
        HistoryStorage.get_unchecked p contract block_number
    ok (hash, state)

  unfoldable pub build : List ℕ → Sealed H → Outcome (List (StateCommit H) × Sealed H)
  unfolding preflight
  build [] current = ok ([], current)
  build (number ∷ numbers) current = do
    header ← provider.get_header number
    (hash, state_witness) ← preflight (ops.hash_slow header) (ops.number current.inner)
    guard (bytes_eq current.seal hash) (message "final block does not match the commitment block")
    (state_commits, last) ← build numbers (seal_slow ops header)
    ok (record { state = state_witness; header = header } ∷ state_commits, last)

  unfoldable pub from_headers : Sealed H → Sealed H → Outcome (HistoryCommit H)
  unfolding build schedule
  from_headers execution_header commitment_header = do
    guard (ltb (ops.number execution_header.inner) (ops.number commitment_header.inner))
        (message "EVM execution block not before commitment block")
    (state_commits, current) ←
        build (schedule (ops.number execution_header.inner) (ops.number commitment_header.inner))
          execution_header
    guard (bytes_eq current.seal commitment_header.seal) (message "condition failed")
    ok (record { state_commits = state_commits })
