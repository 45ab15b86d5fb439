-- ===== src/Game.antt =====
-- crates/op-steel/src/game.rs: a commitment to the root claim of a dispute game.
pub mod Claim
use steel.Prelude.{ℕ, Bytes, B256, bytes_eq}
use steel.Outcome.{Outcome, ok, assert, ◌>>=◌, ◌>>◌}
use steel.Codec.{Codec}
use steel.Header.{Sealed}
use steel.Commitment
use steel.Commitment.{Commitment}

pub record OutputRootProof : Type 0 where
  pub version : B256
  pub state_root : B256
  pub message_passer_storage_root : B256
  pub latest_blockhash : B256

pub record DisputeGameCommit : Type 0 where
  pub game_index : ℕ
  pub proof : OutputRootProof

unfoldable pub new : ℕ → OutputRootProof → DisputeGameCommit
new game_index proof = record { game_index = game_index; proof = proof }

-- `abi_encode` is generated by the macro `sol!`
module _ (c : Codec) (abi_encode : OutputRootProof → Bytes) where
  unfoldable pub hash : OutputRootProof → B256
  hash self = c.keccak256 (abi_encode self)

  unfoldable pub commit : {H : Type 0} → DisputeGameCommit → Sealed H → B256 → Outcome Commitment
  unfolding hash
  commit self header config_id = do
    assert (bytes_eq self.proof.latest_blockhash header.seal) "Block hash mismatch"
    ok (Commitment.new 0x100 self.game_index (hash self.proof) config_id)
