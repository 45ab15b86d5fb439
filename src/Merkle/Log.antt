-- ===== src/Merkle/Log.antt =====
-- `usize::ilog2`, rounded down.
use native.Mathlib.Nat.{pow-suc, mul_comm}
use steel.Prelude.{
  ℕ, zero, suc, ◌+◌, ◌*◌, ◌/◌, ◌^◌, ◌≤◌, ◌<◌, ◌≡◌, refl, ap, false, arith, ltb, if◌then◌else◌,
}

unfoldable pub halvings : ℕ → ℕ → ℕ
halvings zero n = 0
halvings (suc fuel) n = let rest = suc (halvings fuel (n / 2)) in if ltb n 2 then 0 else rest

-- `n` halvings are more than enough to come below 2.
unfoldable pub ilog2 : ℕ → ℕ
unfolding halvings
ilog2 n = halvings n n

pub pow_double : (k : ℕ) → 2 ^ suc k ≡ 2 * 2 ^ k
pow_double k = rw pow-suc (mul_comm (2 ^ k) 2)

pub pow_pos : (k : ℕ) → 1 ≤ 2 ^ k
pow_pos zero = omega arith
pow_pos (suc k) = omega (arith, pow_pos k, pow_double k)

halvings-small : (fuel n : ℕ) → n < 2 → halvings fuel n ≡ 0
unfolding halvings
halvings-small zero n h = refl
halvings-small (suc fuel) n h = ground arith

halvings-pow : (fuel k i : ℕ) → i < 2 ^ k → 2 ^ k + i ≤ suc fuel → halvings fuel (2 ^ k + i) ≡ k
unfolding halvings
halvings-pow fuel zero i h l = halvings-small fuel (2 ^ 0 + i) (omega arith)
halvings-pow zero (suc k) i h l = absurd (omega (arith, pow_pos k, pow_double k))
halvings-pow (suc fuel) (suc k) i h l =
    let two = pow_double k in
    let half : (2 ^ suc k + i) / 2 ≡ 2 ^ k + i / 2 = omega (arith, two) in
    let large : ltb (2 ^ suc k + i) 2 ≡ false = ground (arith, two, pow_pos k) in
    rw (large, half)
      (ap suc (halvings-pow fuel k (i / 2) (omega (arith, two)) (omega (arith, two, pow_pos k))))

-- The numbers from 2 ^ k up to 2 ^ (k + 1) have the logarithm k.
pub ilog2-pow : (k i : ℕ) → i < 2 ^ k → ilog2 (2 ^ k + i) ≡ k
unfolding ilog2
ilog2-pow k i h = halvings-pow (2 ^ k + i) k i h (omega arith)
