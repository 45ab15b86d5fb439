-- ===== src/Host/History.antt =====
-- crates/steel/src/history/mod.rs and beacon_roots.rs on the host: the way back from the commitment
-- block to the beacon block of the execution block.
use steel.Prelude.{
  ℕ, zero, suc, ◌+◌, ◌%◌, B256, true, false, List, [], ◌∷◌, ◌++◌, ltb, ◌==◌, bytes_eq,
}
use mathlib.Core.List.{reverse}
use steel.Outcome.{Outcome, ok, panic, out_of_fuel, guard, message, ◌>>=◌, ◌>>◌}
use steel.Header.{EvmBlockHeader, Sealed}
use steel.Platform.{Platform}
use steel.Commitment.{CommitmentVersion, beacon}
use steel.Beacon.{
  BeaconBlockId, eip4788, slot, BeaconCommit, into_commit, block_hash_leaf_index,
  state_root_leaf_index,
}
use steel.History.Contract.{SingleContractState, from_proof}
use steel.History.BeaconRoots
use steel.History.Commit.{StateCommit, HistoryCommit}
use steel.Rpc.{Provider, context}
use steel.Host.Provider.{ProviderDb, new as new_db, default_chunk_size, get_proof}
use steel.Host.Builder.{slot_keys, slot_proofs}
use steel.Host.Beacon.{
  EthResponse, BeaconClient, by_root, create_beacon_commit, from_beacon_root, from_header,
  get_execution_payload_block_hash,
}

module _ {HR RR : Type 0} where
  -- the timestamp that the contract stores in the slot of a timestamp
  unfoldable pub get_timestamp : ProviderDb HR RR → ℕ → Outcome ℕ
  get_timestamp db timestamp =
      context
        (db.provider.get_storage_at BeaconRoots.address
          (timestamp % BeaconRoots.history_buffer_length) db.block)
        "eth_getStorageAt failed"

  unfoldable pub get : Platform → ℕ → ProviderDb HR RR → ℕ → Outcome (B256 × SingleContractState)
  unfolding get_proof slot_keys slot_proofs BeaconRoots.new BeaconRoots.get from_proof
  get p fuel db timestamp = do
    let timestamp_idx = timestamp % BeaconRoots.history_buffer_length
    let root_idx = timestamp_idx + BeaconRoots.history_buffer_length
    proof ← get_proof db BeaconRoots.address (slot_keys (timestamp_idx ∷ root_idx ∷ []))
    guard (bytes_eq proof.code_hash BeaconRoots.code_hash)
        (message "no or invalid beacon roots contract deployed; EIP-4788 is required")
    state ←
        context
          (from_proof p fuel BeaconRoots.address (record {
            account_proof = proof.account_proof;
            storage_proof = slot_proofs proof.storage_proof;
          }))
          "invalid eth_getProof response"
    root ← BeaconRoots.new p state >>= λ contract. BeaconRoots.get p contract timestamp
    ok (root, state)

-- only an EIP-4788 identifier has a timestamp
unfoldable pub execution_timestamp : BeaconBlockId → Outcome ℕ
execution_timestamp (eip4788 ts) = ok ts
execution_timestamp (slot s) = panic "internal error: entered unreachable code"

module _ (p : Platform) (fuel : ℕ) {HR RR H : Type 0} (eth : EthResponse HR)
    (ops : EvmBlockHeader H) (node : Provider HR RR) (client : BeaconClient) where
  -- One round: the beacon root that the state of a block holds at the slot of the execution block.
  unfoldable pub look_up : B256 → ℕ → Outcome (ℕ × B256 × SingleContractState)
  unfolding get_timestamp get new_db
  look_up block_hash ts = do
    let db = new_db node default_chunk_size block_hash
    timestamp ← context (get_timestamp db ts) "failed to get timestamp from beacon roots contract"
    (parent_beacon_root, state) ←
        context (get p fuel db timestamp) "failed to preflight beacon roots contract"
    ok (timestamp, parent_beacon_root, state)

  -- The loop, newest state first. The program has no bound on its rounds; the model gives it fuel.
  unfoldable pub go_back :
      ℕ → ℕ → B256 → B256 → BeaconCommit → List StateCommit → Outcome (List StateCommit)
  unfolding look_up get_execution_payload_block_hash from_beacon_root
  go_back zero ts beacon_root block_hash commit state_commits = out_of_fuel
  go_back (suc rounds) ts beacon_root block_hash commit state_commits = do
    (timestamp, parent_beacon_root, state) ← look_up block_hash ts
    let found = state_commits ++ (record { state = state; state_commit = commit } ∷ [])
    elim (timestamp == ts) [
      | true ↦ (do
        guard (bytes_eq parent_beacon_root beacon_root)
            (message "failed to verify final beacon commit")
        ok found)
      | false ↦ (do
        next_hash ←
            context (get_execution_payload_block_hash client (by_root parent_beacon_root))
              "Failed to get execution payload block hash"
        next_commit ←
            context
              (from_beacon_root p.codec state_root_leaf_index parent_beacon_root client
                (eip4788 timestamp))
              "Failed to create beacon commit"
        go_back rounds ts beacon_root next_hash next_commit found)
    ]

  unfoldable pub from_headers : ℕ → Sealed H → Sealed H → CommitmentVersion → Outcome HistoryCommit
  unfolding go_back from_header create_beacon_commit into_commit execution_timestamp
  from_headers rounds execution_header commitment_header version = do
    guard (ltb (ops.number execution_header.inner) (ops.number commitment_header.inner))
        (message "EVM execution block not before commitment block")
    evm_commit ←
        context (from_header p.codec eth ops execution_header beacon node client)
          "failed to create beacon commit for the execution header"
    (block_id, beacon_root) ←
        into_commit p.codec block_hash_leaf_index evm_commit execution_header.seal
    ts ← execution_timestamp block_id
    (commit, _) ←
        context
          (create_beacon_commit p.codec eth ops state_root_leaf_index commitment_header version node
            client)
          "failed to create beacon commit for the commitment header"
    state_commits ← go_back rounds ts beacon_root commitment_header.seal commit []
    ok (record { evm_commit = evm_commit; state_commits = reverse state_commits })
