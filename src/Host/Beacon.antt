-- ===== src/Host/Beacon.antt =====
-- crates/steel/src/beacon/host: the proof that a field of an execution payload is in a beacon block.
pub mod Sound
use steel.Prelude.{
  ℕ, ◌+◌, ◌/◌, ◌%◌, ◌^◌, B256, Bytes, Bool, Option, none, some, List, [], ◌∷◌, ◌++◌, ◌&&◌, ltb, leb,
  ◌==◌, bytes_eq, if◌then◌else◌,
}
use steel.Outcome.{Outcome, ok, err, panic, guard, message, ◌>>=◌, ◌>>◌}
use steel.Codec.{Codec}
use steel.Header.{EvmBlockHeader, Sealed}
use steel.Commitment.{CommitmentVersion, block, beacon, consensus}
use steel.Beacon
use steel.Beacon.{
  BeaconBlockId, eip4788, slot, BeaconCommit, state_root_leaf_index, block_hash_leaf_index,
}
use steel.Merkle.Tree
use steel.Merkle.Tree.{num_leaves}
use steel.Rpc
use steel.Rpc.{Provider, context, or_err}

-- `FullPayloadRef` of lighthouse: the `tree_hash_root()` of each field
pub record ExecutionPayload : Type 0 where
  pub parent_hash : B256
  pub fee_recipient : B256
  pub state_root : B256
  pub receipts_root : B256
  pub logs_bloom : B256
  pub prev_randao : B256
  pub block_number : B256
  pub gas_limit : B256
  pub gas_used : B256
  pub timestamp : B256
  pub extra_data : B256
  pub base_fee_per_gas : B256
  pub block_hash : B256
  pub transactions : B256
  pub withdrawals : Option B256
  pub blob_gas_used : Option B256
  pub excess_blob_gas : Option B256

-- `SignedBeaconBlock` of lighthouse, likewise; `fork` is the position of its `ForkName`
pub record BeaconBlock : Type 0 where
  pub fork : ℕ
  pub slot : B256
  pub proposer_index : B256
  pub parent_root : B256
  pub state_root : B256
  pub body_root : B256
  pub body_merkle_leaves : List B256
  pub execution_payload : Option ExecutionPayload

-- `BlockHeaderResponse` of the beacon API
pub record BlockHeaderResponse : Type 0 where
  pub root : B256
  pub parent_root : B256
  pub slot : ℕ

-- a block of the beacon API, by its root or its slot
pub data BlockRef : Type 0 where
  by_root : B256 → BlockRef
  by_slot : ℕ → BlockRef

-- `BeaconClient`, by the answers to its requests
pub record BeaconClient : Type 0 where
  pub blocks : BlockRef → Outcome BeaconBlock
  pub headers : B256 → Outcome (List BlockHeaderResponse)

-- the position of `ForkName::Deneb`
abbrev pub deneb : ℕ
deneb = 4

unfoldable pub pop : {A : Type 0} → List A → Option A
pop [] = none
pop (x ∷ xs) = last x xs
  where
    last : {A : Type 0} → A → List A → Option A
    last y [] = some y
    last y (z ∷ zs) = last z zs

unfoldable pub get_header_for_parent_root : BeaconClient → B256 → Outcome BlockHeaderResponse
unfolding pop
get_header_for_parent_root client parent_root = do
  result ← client.headers parent_root
  or_err (pop result) "empty response"

unfoldable pub get_execution_payload_block_hash : BeaconClient → BlockRef → Outcome B256
get_execution_payload_block_hash client id = do
  b ← client.blocks id
  payload ← or_err b.execution_payload "no execution payload"
  ok payload.block_hash

-- `Option::expect` of a field that blocks from Deneb on have
unfoldable pub expect_field : Option B256 → Outcome B256
expect_field none = panic "Deneb+ blocks have this field"
expect_field (some root) = ok root

unfoldable pub execution_payload_leaves : ExecutionPayload → Outcome (List B256)
unfolding expect_field
execution_payload_leaves ep = do
  withdrawals ← expect_field ep.withdrawals
  blob_gas_used ← expect_field ep.blob_gas_used
  excess_blob_gas ← expect_field ep.excess_blob_gas
  ok (
      ep.parent_hash ∷ ep.fee_recipient ∷ ep.state_root ∷ ep.receipts_root ∷ ep.logs_bloom
      ∷ ep.prev_randao ∷ ep.block_number ∷ ep.gas_limit ∷ ep.gas_used ∷ ep.timestamp ∷ ep.extra_data
      ∷ ep.base_fee_per_gas ∷ ep.block_hash ∷ ep.transactions ∷ withdrawals ∷ blob_gas_used
      ∷ excess_blob_gas ∷ [])

unfoldable pub block_leaves : BeaconBlock → List B256
block_leaves b = b.slot ∷ b.proposer_index ∷ b.parent_root ∷ b.state_root ∷ b.body_root ∷ []

abbrev pub body_index_in_block : ℕ
body_index_in_block = 4

abbrev pub ep_index_in_body : ℕ
ep_index_in_body = 9

module _ (c : Codec) where
  -- The debug assertions on the roots are not part of a release build.
  unfoldable pub prove_execution_payload_field :
      BeaconBlock → ExecutionPayload → ℕ → Outcome (List B256)
  unfolding execution_payload_leaves block_leaves Tree.new Tree.proof num_leaves
  prove_execution_payload_field b ep gindex = do
    leaves ← execution_payload_leaves ep
    let ep_tree = Tree.new c leaves
    let body_tree = Tree.new c b.body_merkle_leaves
    let block_tree = Tree.new c (block_leaves b)
    let leaf_index = gindex % num_leaves ep_tree
    let g = gindex / num_leaves ep_tree
    let body_index = g % num_leaves body_tree
    let g' = g / num_leaves body_tree
    let block_index = g' % num_leaves block_tree
    guard
        (g' / num_leaves block_tree == 1
          && (block_index == body_index_in_block && body_index == ep_index_in_body))
        (message "gindex does not point to a field inside the ExecutionPayload")
    ep_proof ← Tree.proof ep_tree leaf_index
    body_proof ← Tree.proof body_tree body_index
    block_proof ← Tree.proof block_tree block_index
    ok (ep_proof ++ (body_proof ++ block_proof))

  unfoldable pub expected_leaf : ℕ → ExecutionPayload → Outcome B256
  expected_leaf leaf_index ep =
      if leaf_index == block_hash_leaf_index
      then ok ep.block_hash
      else if leaf_index == state_root_leaf_index
      then ok ep.state_root
      else err (message "unsupported LEAF_INDEX")

  unfoldable pub from_beacon_root : ℕ → B256 → BeaconClient → BeaconBlockId → Outcome BeaconCommit
  unfolding expected_leaf prove_execution_payload_field Beacon.new Beacon.verify
  from_beacon_root leaf_index parent_beacon_root client block_id = do
    b ← context (client.blocks (by_root parent_beacon_root)) "failed to get block"
    guard (leb deneb b.fork) (message "invalid version of block")
    ep ← or_err b.execution_payload "block has no execution payload"
    leaf ← expected_leaf leaf_index ep
    proof ← prove_execution_payload_field b ep leaf_index
    commit ← Beacon.new leaf_index proof block_id
    context (Beacon.verify c leaf_index commit leaf parent_beacon_root)
        "LEAF_INDEX does not point to the expected ExecutionPayload field"
    ok commit

-- What the host reads of a header of an Ethereum node.
pub record EthResponse (HR : Type 0) : Type 0 where
  pub parent_hash : HR → B256
  pub parent_beacon_block_root : HR → Option B256
  pub timestamp : HR → ℕ

module _ (c : Codec) {HR RR H : Type 0} (eth : EthResponse HR) (ops : EvmBlockHeader H)
    (leaf_index : ℕ) where
  -- the number of the child is a u64, whose addition wraps
  unfoldable pub create_eip4788_beacon_commit :
      Sealed H → Provider HR RR → BeaconClient → Outcome (BeaconCommit × B256)
  unfolding from_beacon_root
  create_eip4788_beacon_commit header node client = do
    response ←
        context (node.get_block (Rpc.number ((ops.number header.inner + 1) % 2 ^ 64)))
          "eth_getBlockByNumber failed"
    child ← or_err response "beacon block commitment cannot be created for the most recent block"
    guard (bytes_eq (eth.parent_hash child) header.seal)
        (message "API returned invalid child block")
    beacon_root ←
        or_err (eth.parent_beacon_block_root child)
          "parent_beacon_block_root missing in execution header"
    commit ← from_beacon_root c leaf_index beacon_root client (eip4788 (eth.timestamp child))
    ok (commit, beacon_root)

  unfoldable pub create_slot_beacon_commit :
      Sealed H → Provider HR RR → BeaconClient → Outcome (BeaconCommit × B256)
  unfolding from_beacon_root get_header_for_parent_root
  create_slot_beacon_commit header node client = do
    response ← context (node.get_block (Rpc.hash header.seal)) "eth_getBlockByHash failed"
    execution_header ← or_err response "block not found"
    parent_root ←
        or_err (eth.parent_beacon_block_root execution_header)
          "parent_beacon_block_root missing in execution header"
    beacon_header ←
        context (get_header_for_parent_root client parent_root)
          "failed to get header for parent root"
    guard (bytes_eq beacon_header.parent_root parent_root)
        (message "API returned invalid beacon header")
    commit ← from_beacon_root c leaf_index beacon_header.root client (slot beacon_header.slot)
    ok (commit, beacon_header.root)

  unfoldable pub create_beacon_commit :
      Sealed H → CommitmentVersion → Provider HR RR → BeaconClient → Outcome (BeaconCommit × B256)
  unfolding create_eip4788_beacon_commit create_slot_beacon_commit
  create_beacon_commit header beacon node client = create_eip4788_beacon_commit header node client
  create_beacon_commit header consensus node client = create_slot_beacon_commit header node client
  create_beacon_commit header block node client = err (message "invalid commitment version")

-- `BeaconCommit::from_header`
unfoldable pub from_header :
    Codec
    → {HR RR H : Type 0} → EthResponse HR
    → EvmBlockHeader H
    → Sealed H
    → CommitmentVersion
    → Provider HR RR
    → BeaconClient
    → Outcome BeaconCommit
unfolding create_beacon_commit
from_header c eth ops header version node client = do
  (commit, beacon_root) ←
      create_beacon_commit c eth ops block_hash_leaf_index header version node client
  ok commit
