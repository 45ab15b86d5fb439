-- ===== src/Host/Beacon/Sound.antt =====
-- crates/steel/src/beacon/host/mod.rs: the beacon commitments that the host makes.
use steel.Prelude.{
  ℕ, ◌≡◌, refl, sym, ap, ◌∙◌, subst, B256, Bool, true, false, some, bytes_eq, bytes_eq→eq, leb, ltb,
  if◌then◌else◌,
}
use steel.Outcome.{ok, err, invalid_proof, message, >>=-eq-ok, guard->>, assert->>, ok-injective}
use steel.Codec.{Codec}
use steel.Merkle.Proof
use steel.Beacon
use steel.Beacon.{BeaconBlockId, BeaconCommit, into_commit, process_proof, verify}
use steel.Rpc.{context, or_err}
use steel.Host.Proven.{or_err-eq-ok}
use steel.Host.Accepted.{context-eq-ok}
use steel.Host.Beacon.{
  BeaconBlock, ExecutionPayload, BeaconClient, by_root, deneb, expected_leaf,
  prove_execution_payload_field, from_beacon_root,
}

module _ (c : Codec) (leaf_index : ℕ) where
  verify-into_commit :
      (commit : BeaconCommit) (leaf root : B256) {u : Unit {0}}
      → verify c leaf_index commit leaf root ≡ ok u
      → into_commit c leaf_index commit leaf ≡ ok (commit.block_id, root)
  unfolding verify Proof.verify into_commit process_proof
  verify-into_commit commit leaf root {u} e =
      let (computed, p, q) = >>=-eq-ok (Proof.process_proof c leaf commit.proof leaf_index) _ e in
      rw p (ap (λ r. ok (commit.block_id, r)) (at computed (bytes_eq computed root) refl q))
    where
      at :
          (computed : B256) (b : Bool)
          → bytes_eq computed root ≡ b
          → (if b then ok tt else err invalid_proof) ≡ ok u
          → computed ≡ root
      at computed true h r = bytes_eq→eq computed root h
      at computed false h r = cc

  -- The block of the beacon API whose payload a commitment is for, with the leaf that the commitment
  -- proves. The guest makes the root of this block of the leaf, under the identifier given.
  abbrev pub IsCommitted : B256 → BeaconClient → BeaconBlockId → BeaconCommit → Type 0
  IsCommitted root client id commit =
      (b : BeaconBlock) × (ep : ExecutionPayload) × (leaf : B256) × (client.blocks (by_root root)
        ≡ ok b)
      × (b.execution_payload ≡ some ep)
      × (expected_leaf c leaf_index ep ≡ ok leaf)
      × (into_commit c leaf_index commit leaf ≡ ok (id, root))

  -- A beacon commitment that the host makes for a root belongs to the block that the beacon API gives
  -- for this root: from the block hash or the state root of its payload, whichever the index stands
  -- for, the guest makes the identifier and the root that the host was given.
  pub from_beacon_root-IsCommitted :
      (root : B256) (client : BeaconClient) (id : BeaconBlockId) (commit : BeaconCommit)
      → from_beacon_root c leaf_index root client id ≡ ok commit
      → IsCommitted root client id commit
  unfolding from_beacon_root Beacon.new
  from_beacon_root-IsCommitted root client id commit e =
      let (b, p0, e0) =
        >>=-eq-ok (context (client.blocks (by_root root)) "failed to get block") _ e in
      let (_, e1) = guard->> (leb deneb b.fork) (message "invalid version of block") _ e0 in
      let (ep, p2, e2) =
        >>=-eq-ok (or_err b.execution_payload "block has no execution payload") _ e1 in
      let (leaf, p3, e3) = >>=-eq-ok (expected_leaf c leaf_index ep) _ e2 in
      let (proof, _, e4) = >>=-eq-ok (prove_execution_payload_field c b ep leaf_index) _ e3 in
      let (made, p5, e5) = >>=-eq-ok (Beacon.new leaf_index proof id) _ e4 in
      let (_, p6) = assert->> (ltb 0 leaf_index) "assertion failed: LEAF_INDEX > 0" _ p5 in
      let (_, p7, e7) =
        >>=-eq-ok
          (context (verify c leaf_index made leaf root)
            "LEAF_INDEX does not point to the expected ExecutionPayload field")
          _ e5 in
      let named : made.block_id ≡ id = sym (ap (λ x. x.block_id) (ok-injective p6)) in
      subst (IsCommitted root client id) (ok-injective e7) (
        b,
        ep,
        leaf,
        context-eq-ok (client.blocks (by_root root)) _ p0,
        or_err-eq-ok b.execution_payload _ p2,
        p3,
        verify-into_commit made leaf root (context-eq-ok (verify c leaf_index made leaf root) _ p7)
            ∙ ap (λ i. ok (i, root)) named,
      )
