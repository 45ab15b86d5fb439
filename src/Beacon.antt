-- ===== src/Beacon.antt =====
-- crates/steel/src/beacon/mod.rs: commitments to a beacon block root.
pub mod Binding
use steel.Prelude.{ℕ, B256, List, ltb}
use steel.Outcome.{Outcome, ok, expect, assert, ◌>>=◌, ◌>>◌}
use steel.Codec.{Codec}
use steel.Header.{Sealed}
use steel.Commitment
use steel.Commitment.{Commitment, as_u16, beacon, consensus}
use steel.Merkle.Proof

abbrev pub state_root_leaf_index : ℕ
state_root_leaf_index = 6434

abbrev pub block_hash_leaf_index : ℕ
block_hash_leaf_index = 6444

pub data BeaconBlockId : Type 0 where
  eip4788 : ℕ → BeaconBlockId
  slot : ℕ → BeaconBlockId

unfoldable pub as_version : BeaconBlockId → ℕ
unfolding as_u16
as_version (eip4788 ts) = as_u16 beacon
as_version (slot s) = as_u16 consensus

unfoldable pub as_id : BeaconBlockId → ℕ
as_id (eip4788 ts) = ts
as_id (slot s) = s

-- `GeneralizedBeaconCommit<LEAF_INDEX>`; the functions take the leaf index as an argument.
pub record BeaconCommit : Type 0 where
  pub proof : List B256
  pub block_id : BeaconBlockId

unfoldable pub new : ℕ → List B256 → BeaconBlockId → Outcome BeaconCommit
new leaf_index proof block_id = do
  assert (ltb 0 leaf_index) "assertion failed: LEAF_INDEX > 0"
  ok (record { proof = proof; block_id = block_id })

module _ (c : Codec) (leaf_index : ℕ) where
  unfoldable pub process_proof : BeaconCommit → B256 → Outcome B256
  process_proof commit leaf = Proof.process_proof c leaf commit.proof leaf_index

  unfoldable pub verify : BeaconCommit → B256 → B256 → Outcome (Unit {0})
  verify commit leaf root = Proof.verify c leaf commit.proof leaf_index root

  unfoldable pub into_commit : BeaconCommit → B256 → Outcome (BeaconBlockId × B256)
  unfolding process_proof
  into_commit commit leaf = do
    beacon_root ← expect (process_proof commit leaf) "Invalid beacon inclusion proof"
    ok (commit.block_id, beacon_root)

  -- `BlockHeaderCommit::commit`
  unfoldable pub commit : {H : Type 0} → BeaconCommit → Sealed H → B256 → Outcome Commitment
  unfolding into_commit
  commit self header config_id = do
    (block_id, beacon_root) ← into_commit self header.seal
    ok (Commitment.new (as_version block_id) (as_id block_id) beacon_root config_id)
