-- ===== src/History/Commit.antt =====
-- crates/steel/src/history/mod.rs: a block committed to by a later beacon block.
use steel.Prelude.{ℕ, ◌^◌, B256, List, [], ◌∷◌, ◌==◌, ltb, bytes_eq}
use steel.Outcome.{Outcome, ok, panic, expect, assert, ◌>>=◌, ◌>>◌}
use steel.Header.{Sealed}
use steel.Platform.{Platform}
use steel.Commitment
use steel.Commitment.{Commitment, decode_id, as_u16, beacon}
use steel.Beacon
use steel.Beacon.{
  BeaconBlockId, eip4788, slot, BeaconCommit, state_root_leaf_index, block_hash_leaf_index,
  as_version, as_id, into_commit,
}
use steel.History.Contract.{SingleContractState, root}
use steel.History.BeaconRoots

pub record StateCommit : Type 0 where
  pub state : SingleContractState
  pub state_commit : BeaconCommit

pub record HistoryCommit : Type 0 where
  pub evm_commit : BeaconCommit
  pub state_commits : List StateCommit

-- the timestamp to look up, which only an EIP-4788 identifier has
unfoldable pub timestamp_of : BeaconBlockId → Outcome ℕ
timestamp_of (eip4788 ts) = ok ts
timestamp_of (slot s) = panic "Invalid state commitment: wrong version"

-- `id.to()` panics where the identifier does not fit in 64 bits
unfoldable pub to_u64 : ℕ → Outcome ℕ
to_u64 id = do assert (ltb id (2 ^ 64)) "Uint conversion error"; ok id

module _ (p : Platform) where
  -- one step of the walk forward
  unfoldable pub step : StateCommit → BeaconBlockId → B256 → Outcome (BeaconBlockId × B256)
  unfolding timestamp_of root BeaconRoots.new BeaconRoots.get into_commit
  step state_commit block_id beacon_root = do
    let state_root = root p state_commit.state
    timestamp ← timestamp_of block_id
    commitment_root ←
        expect
          (BeaconRoots.new p state_commit.state >>= λ contract.
            BeaconRoots.get p contract timestamp)
          "Beacon roots contract failed"
    assert (bytes_eq commitment_root beacon_root) "Beacon root mismatch"
    into_commit p.codec state_root_leaf_index state_commit.state_commit state_root

  unfoldable pub walk : List StateCommit → BeaconBlockId → B256 → Outcome (BeaconBlockId × B256)
  unfolding step
  walk [] block_id beacon_root = ok (block_id, beacon_root)
  walk (state_commit ∷ state_commits) block_id beacon_root = do
    (next_id, next_root) ← step state_commit block_id beacon_root
    walk state_commits next_id next_root

  unfoldable pub commit : {H : Type 0} → HistoryCommit → Sealed H → B256 → Outcome Commitment
  unfolding walk to_u64 as_version as_id decode_id Beacon.commit
  commit self header config_id = do
    evm_commitment ← Beacon.commit p.codec block_hash_leaf_index self.evm_commit header config_id
    let (id, version) = decode_id evm_commitment
    assert (version == as_u16 beacon) "assertion `left == right` failed"
    timestamp ← to_u64 id
    (block_id, beacon_root) ← walk self.state_commits (eip4788 timestamp) evm_commitment.digest
    ok (Commitment.new (as_version block_id) (as_id block_id) beacon_root evm_commitment.config_id)
