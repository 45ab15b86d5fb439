-- ===== src/History/Eip2935.antt =====
-- crates/steel/src/history/eip2935/mod.rs: a block committed to by a later block.
use steel.Prelude.{ℕ, ◌-◌, B256, Bool, List, [], ◌∷◌, ltb, leb, ◌&&◌, bytes_eq}
use steel.Outcome.{Outcome, ok, expect, assert, ◌>>=◌, ◌>>◌}
use steel.Header.{EvmBlockHeader, EvmSpecId, Sealed, seal_slow}
use steel.Platform.{Platform}
use steel.Commitment
use steel.Commitment.{Commitment, as_u16, block}
use steel.Config.Spec.{ChainSpec}
use steel.State.{StateDb}
use steel.Env.{EvmEnv}
use steel.Block
use steel.Block.{BlockInput, Receipts}
use steel.History.Contract.{SingleContractState, root}
use steel.History.HistoryStorage

pub record StateCommit (H : Type 0) : Type 0 where
  pub state : SingleContractState
  pub header : H

pub record HistoryCommit (H : Type 0) : Type 0 where
  pub state_commits : List (StateCommit H)

pub record HistoryInput (H R : Type 0) : Type 0 where
  pub input : BlockInput H R
  pub commit : HistoryCommit H

-- whether the block is before the other by at most the window
unfoldable pub in_window : ℕ → ℕ → Bool
in_window number later =
    ltb number later && leb (later - number) HistoryStorage.history_serve_window

module _ (p : Platform) {H : Type 0} (ops : EvmBlockHeader H) where
  -- one step of the walk forward
  unfoldable pub step : StateCommit H → Sealed H → Outcome (Sealed H)
  unfolding in_window root HistoryStorage.new HistoryStorage.get_unchecked
  step state_commit header = do
    let state_header = seal_slow ops state_commit.header
    assert (in_window (ops.number header.inner) (ops.number state_commit.header))
        "Block outside of EIP-2935 history range"
    assert (bytes_eq (root p state_commit.state) (ops.state_root state_commit.header))
        "State root mismatch"
    execution_hash ←
        expect
          (HistoryStorage.new p state_commit.state >>= λ contract.
            HistoryStorage.get_unchecked p contract (ops.number header.inner))
          "History storage contract failed"
    assert (bytes_eq execution_hash header.seal) "Execution hash mismatch"
    ok state_header

  unfoldable pub walk : List (StateCommit H) → Sealed H → Outcome (Sealed H)
  unfolding step
  walk [] header = ok header
  walk (state_commit ∷ state_commits) header = do
    state_header ← step state_commit header
    walk state_commits state_header

  unfoldable pub commit : HistoryCommit H → Sealed H → B256 → Outcome Commitment
  unfolding walk
  commit self header config_id = do
    last ← walk self.state_commits header
    ok (Commitment.new (as_u16 block) (ops.number last.inner) last.seal config_id)

  module _ {R S : Type 0} (ids : EvmSpecId S) (rs : Receipts R) where
    unfoldable pub into_env :
        HistoryInput H R → ChainSpec S → Outcome (EvmEnv StateDb S H Commitment)
    unfolding commit Block.into_env
    into_env self chain_spec = do
      env ← Block.into_env p ops ids rs self.input chain_spec
      assert (ids.has_eip2935 env.spec_id) "EIP-2935 required"
      commitment ← commit self.commit env.header env.commit.config_id
      ok (record env { commit = commitment })
