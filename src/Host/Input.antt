-- ===== src/Host/Input.antt =====
-- crates/steel/src/block.rs, `from_proof_db`, and crates/steel/src/host/mod.rs, `into_input`: the
-- input that the host makes for the guest.
use steel.Prelude.{ℕ, B256, Option, none, some, List, [], ◌∷◌, bytes_eq}
use steel.Prelude.Maps.{values}
use steel.Outcome.{Outcome, ok, assert, guard, message, ◌>>=◌, ◌>>◌}
use steel.Header.{EvmBlockHeader, Sealed}
use steel.Platform.{Platform}
use steel.Mpt.Trie.{hash_slow}
use steel.Beacon.{BeaconCommit}
use steel.History.Commit.{HistoryCommit}
use steel.History.Eip2935
use steel.Block.{BlockInput}
use steel.Input
use steel.Input.{EvmInput}
use steel.Rpc.{Network, context}
use steel.Env.{EvmEnv}
use steel.Host.Provider.{ProviderDb}
use steel.Host.Proof.{ProofDb}
use steel.Host.Proof.Requests.{state_proof, ancestor_proof, receipt_proof}

-- `map(try_from).collect::<Result<_, _>>()`
unfoldable pub try_all : {A B : Type 0} → (A → Outcome B) → List A → Outcome (List B)
try_all f [] = ok []
try_all f (x ∷ xs) = do y ← f x; ys ← try_all f xs; ok (y ∷ ys)

-- `transpose` of such a conversion
unfoldable pub try_option :
    {A B : Type 0} → (A → Outcome B) → Option (List A) → Outcome (Option (List B))
unfolding try_all
try_option f none = ok none
try_option f (some xs) = do ys ← try_all f xs; ok (some ys)

-- `HostCommit<C>`
pub record HostCommit (C : Type 0) : Type 0 where
  pub inner : C
  pub config_id : B256

module _ (p : Platform) (fuel : ℕ) {HR RR H R : Type 0} (net : Network HR RR H R)
    (ops : EvmBlockHeader H) where
  unfoldable pub from_proof_db : ProofDb (ProviderDb HR RR) → Sealed H → Outcome (BlockInput H R)
  unfolding try_option state_proof ancestor_proof receipt_proof values
  from_proof_db db header = do
    assert (bytes_eq db.inner.block header.seal) "DB block mismatch"
    ((state_trie, storage_tries), db') ← state_proof net p.codec fuel db
    guard (bytes_eq (ops.state_root header.inner) (hash_slow p.codec state_trie))
        (message "accountProof root does not match header's stateRoot")
    ancestor_headers ← ancestor_proof db' (ops.number header.inner)
    ancestors ← context (try_all net.try_header ancestor_headers) "invalid header"
    rpc_receipts ← receipt_proof net p db'
    receipts ← context (try_option net.try_receipt rpc_receipts) "invalid receipt"
    ok (record {
      header = header.inner;
      state_trie = state_trie;
      storage_tries = storage_tries;
      contracts = values db'.contracts;
      ancestors = ancestors;
      receipts = receipts;
    })

  module _ {S : Type 0} where
    -- `into_input` of the environment with each kind of commitment
    unfoldable pub into_block_input :
        EvmEnv (ProofDb (ProviderDb HR RR)) S H (HostCommit (Unit {0})) → Outcome (EvmInput H R)
    unfolding from_proof_db
    into_block_input env = do input ← from_proof_db env.db env.header; ok (Input.block input)

    unfoldable pub into_beacon_input :
        EvmEnv (ProofDb (ProviderDb HR RR)) S H (HostCommit BeaconCommit) → Outcome (EvmInput H R)
    unfolding from_proof_db Input.new
    into_beacon_input env = do
      input ← from_proof_db env.db env.header
      ok (Input.beacon (Input.new input env.commit.inner))

    unfoldable pub into_history_input :
        EvmEnv (ProofDb (ProviderDb HR RR)) S H (HostCommit HistoryCommit) → Outcome (EvmInput H R)
    unfolding from_proof_db Input.new
    into_history_input env = do
      input ← from_proof_db env.db env.header
      ok (Input.history (Input.new input env.commit.inner))

    unfoldable pub into_eip2935_input :
        EvmEnv (ProofDb (ProviderDb HR RR)) S H (HostCommit (Eip2935.HistoryCommit H))
        → Outcome (EvmInput H R)
    unfolding from_proof_db
    into_eip2935_input env = do
      input ← from_proof_db env.db env.header
      ok (Input.eip_history (record { input = input; commit = env.commit.inner }))
