-- ===== src/Commitment/Packing.antt =====
-- Packing and unpacking the identifier of a commitment.
use steel.Prelude.{ℕ, ◌^◌, ◌<◌, ◌≡◌, refl, ap, B256, some, arith}
use steel.Commitment.{
  CommitmentVersion, block, beacon, consensus, as_u16, n, Commitment, new, decode_id,
}

-- A commitment made of a u64 identifier and a u16 version unpacks to them, and keeps the digest and
-- the configuration.
pub decode_id-new :
    (version id : ℕ) (digest config_id : B256)
    → version < 2 ^ 16
    → id < 2 ^ 64
    → decode_id (new version id digest config_id) ≡ (id, version)
unfolding decode_id new
decode_id-new version id digest config_id hv hi = ground arith

digest_eq : (v w i j : ℕ) (d e p q : B256) → new v i d p ≡ new w j e q → d ≡ e
unfolding new
digest_eq v w i j d e p q same = ap (λ (c : Commitment). c.digest) same

config_id_eq : (v w i j : ℕ) (d e p q : B256) → new v i d p ≡ new w j e q → p ≡ q
unfolding new
config_id_eq v w i j d e p q same = ap (λ (c : Commitment). c.config_id) same

-- Different versions, identifiers, digests or configurations give different commitments.
pub new-injective :
    (v w i j : ℕ) (d e p q : B256)
    → v < 2 ^ 16
    → w < 2 ^ 16
    → i < 2 ^ 64
    → j < 2 ^ 64
    → new v i d p ≡ new w j e q
    → (v ≡ w) × (i ≡ j) × (d ≡ e) × (p ≡ q)
new-injective v w i j d e p q hv hw hi hj same =
    let x = decode_id-new v i d p hv hi in
    let y = decode_id-new w j e q hw hj in
    (cc (x, y), cc (x, y), digest_eq v w i j d e p q same, config_id_eq v w i j d e p q same)

-- The number of a version is read back as that version.
pub n-as_u16 : (v : CommitmentVersion) → n (as_u16 v) ≡ some v
unfolding n as_u16
n-as_u16 block = refl
n-as_u16 beacon = refl
n-as_u16 consensus = refl
