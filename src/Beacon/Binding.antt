-- ===== src/Beacon/Binding.antt =====
-- What a beacon commitment fixes.
use steel.Prelude.{ℕ, ◌^◌, ◌<◌, ◌≡◌, ◌⊎◌, sym, ap, ◌∙◌, Bytes, B256, All, arith}
use steel.Outcome.{ok, expect, >>=-eq-ok, expect-eq-ok, ok-injective}
use steel.Codec.{Codec, Collision}
use steel.Header.{Sealed}
use steel.Commitment
use steel.Commitment.{Commitment, as_u16, beacon, consensus, decode_id}
use steel.Commitment.Packing.{decode_id-new}
use steel.Merkle.Proof
use steel.Merkle.Binding.{IsDigest, process_proof-binding}
use steel.Beacon.{
  BeaconBlockId, eip4788, slot, BeaconCommit, as_version, as_id, process_proof, into_commit, commit,
}

as_version-lt : (b : BeaconBlockId) → as_version b < 2 ^ 16
unfolding as_version as_u16
as_version-lt (eip4788 ts) = omega arith
as_version-lt (slot s) = omega arith

module _ (c : Codec) (leaf_index : ℕ) {H : Type 0} where
  pub rebuilt :
      (self : BeaconCommit) (header : Sealed H) (config_id : B256) (commitment : Commitment)
      → commit c leaf_index self header config_id ≡ ok commitment
      → (root : B256) × (Proof.process_proof c header.seal self.proof leaf_index ≡ ok root)
        × (Commitment.new (as_version self.block_id) (as_id self.block_id) root config_id
            ≡ commitment)
  unfolding commit into_commit process_proof
  rebuilt self header config_id commitment e =
      let ((id, root), into, made) = >>=-eq-ok (into_commit c leaf_index self header.seal) _ e in
      let (r, processed, pair) =
        >>=-eq-ok (expect (Proof.process_proof c header.seal self.proof leaf_index) _) _ into in
      (
        r,
        expect-eq-ok _ _ processed,
        cc (
          ap (λ x. x.0) (ok-injective pair),
          ap (λ x. x.1) (ok-injective pair),
          ok-injective made,
        ),
      )

  -- A beacon commitment that is made has the root that the proof rebuilds from the block hash as its
  -- digest, the configuration given, and an identifier that unpacks to the version and the number
  -- of the beacon block, if that number is a u64.
  pub commit_lem :
      (self : BeaconCommit) (header : Sealed H) (config_id : B256) (commitment : Commitment)
      → as_id self.block_id < 2 ^ 64
      → commit c leaf_index self header config_id ≡ ok commitment
      → (Proof.process_proof c header.seal self.proof leaf_index ≡ ok commitment.digest)
        × ◌≡◌ {A = ℕ × ℕ} (decode_id commitment) (as_id self.block_id, as_version self.block_id)
        × (commitment.config_id ≡ config_id)
  unfolding Commitment.new
  commit_lem self header config_id commitment small e =
      let (root, processed, made) = rebuilt self header config_id commitment e in
      (
        processed ∙ ap ok (ap (λ (k : Commitment). k.digest) made),
        sym (ap decode_id made)
            ∙ decode_id-new (as_version self.block_id) (as_id self.block_id) root config_id
                (as_version-lt self.block_id) small,
        sym (ap (λ (k : Commitment). k.config_id) made),
      )

  -- Two beacon commitments with one digest, made for two block hashes, are to the same block hash, or
  -- sha256 collides on two inputs. Block hashes, siblings and hashes are digests of 32 bytes.
  pub commit-seal :
      (sized : (x : Bytes) → IsDigest (c.sha256 x)) (self other : BeaconCommit)
      (header header' : Sealed H) (config_id config_id' : B256)
      (commitment commitment' : Commitment)
      → IsDigest header.seal
      → IsDigest header'.seal
      → All IsDigest self.proof
      → All IsDigest other.proof
      → commit c leaf_index self header config_id ≡ ok commitment
      → commit c leaf_index other header' config_id' ≡ ok commitment'
      → commitment.digest ≡ commitment'.digest
      → (header.seal ≡ header'.seal) ⊎ Collision c.sha256
  unfolding Commitment.new
  commit-seal sized self other header header' config_id config_id' commitment commitment' hx hy hb
        ho e e' same =
      let (root, processed, made) = rebuilt self header config_id commitment e in
      let (root', processed', made') = rebuilt other header' config_id' commitment' e' in
      let roots =
        ap (λ (k : Commitment). k.digest) made
        ∙ same
        ∙ sym (ap (λ (k : Commitment). k.digest) made') in
      process_proof-binding c sized header.seal header'.seal self.proof other.proof leaf_index root
        hx hy hb ho processed (processed' ∙ ap ok (sym roots))
