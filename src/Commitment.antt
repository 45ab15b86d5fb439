-- ===== src/Commitment.antt =====
-- crates/steel/src/lib.rs, `Commitment`: what a proof commits to, with the version and the
-- identifier packed into one 256-bit number.
pub mod Packing
use steel.Prelude.{ℕ, ◌+◌, ◌*◌, ◌/◌, ◌%◌, ◌^◌, B256, Option, none, some, ◌==◌, if◌then◌else◌}

pub data CommitmentVersion : Type 0 where
  block beacon consensus : CommitmentVersion

-- `version as u16`
unfoldable pub as_u16 : CommitmentVersion → ℕ
as_u16 block = 0
as_u16 beacon = 1
as_u16 consensus = 2

-- `CommitmentVersion::n`, derived by enumn
unfoldable pub n : ℕ → Option CommitmentVersion
n code =
    if code == 0
    then some block
    else if code == 1
    then some beacon
    else if code == 2
    then some consensus
    else none

pub record Commitment : Type 0 where
  pub id : ℕ
  pub digest : B256
  pub config_id : B256

-- `U256::from_limbs`, and the limb `as_limbs()[3]`
abbrev pub from_limbs : ℕ → ℕ → ℕ → ℕ → ℕ
from_limbs a b c d = a + b * 2 ^ 64 + c * 2 ^ 128 + d * 2 ^ 192

abbrev pub top_limb : ℕ → ℕ
top_limb x = x / 2 ^ 192 % 2 ^ 64

-- `(version as u64) << 48` wraps at 64 bits
unfoldable pub encode_id : ℕ → ℕ → ℕ
encode_id id version = from_limbs id 0 0 (version * 2 ^ 48 % 2 ^ 64)

unfoldable pub new : ℕ → ℕ → B256 → B256 → Commitment
unfolding encode_id
new version id digest config_id = record {
  id = encode_id id version;
  digest = digest;
  config_id = config_id;
}

-- The mask keeps the lower 240 bits; the version is the top limb without its lower 48 bits.
unfoldable pub decode_id : Commitment → ℕ × ℕ
decode_id commitment = (commitment.id % 2 ^ 240, top_limb commitment.id / 2 ^ 48 % 2 ^ 16)
