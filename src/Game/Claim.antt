-- ===== src/Game/Claim.antt =====
-- What the commitment to a dispute game says.
use steel.Prelude.{ℕ, ◌^◌, ◌<◌, ◌≡◌, sym, ap, ◌∙◌, Bytes, B256, bytes_eq, bytes_eq→eq, arith}
use steel.Outcome.{ok, assert->>, ok-injective}
use steel.Codec.{Codec}
use steel.Header.{Sealed}
use steel.Commitment
use steel.Commitment.{Commitment, decode_id}
use steel.Commitment.Packing.{decode_id-new}
use steel.Game.{OutputRootProof, DisputeGameCommit, hash, commit}

-- A commitment to a dispute game that is made is for the block whose hash its proof names, unpacks to
-- the index of the game and the version 0x100, and has the hash of the proof as its digest, if the
-- index is a u64.
pub decode_id-commit :
    {H : Type 0} (c : Codec) (abi_encode : OutputRootProof → Bytes) (self : DisputeGameCommit)
    (header : Sealed H) (config_id : B256) (commitment : Commitment)
    → self.game_index < 2 ^ 64
    → commit c abi_encode self header config_id ≡ ok commitment
    → (self.proof.latest_blockhash ≡ header.seal)
      × ◌≡◌ {A = ℕ × ℕ} (decode_id commitment) (self.game_index, 0x100)
      × (commitment.digest ≡ hash c abi_encode self.proof)
unfolding commit Commitment.new
decode_id-commit c abi_encode self header config_id commitment small e =
    let (same, made) = assert->> (bytes_eq self.proof.latest_blockhash header.seal) _ _ e in
    (
      bytes_eq→eq _ _ same,
      sym (ap decode_id (ok-injective made))
          ∙ decode_id-new 0x100 self.game_index (hash c abi_encode self.proof) config_id
              (omega arith) small,
      sym (ap (λ (k : Commitment). k.digest) (ok-injective made)),
    )
