-- ===== src/Words.antt =====
-- Machine integers as byte strings: `to_le_bytes` and `to_be_bytes`.
use steel.Prelude.{
  ℕ, zero, suc, ◌/◌, ◌%◌, ◌^◌, ◌<◌, ◌≡◌, refl, ap, Bytes, [], ◌∷◌, ◌++◌, arith, length,
  length-append,
}
use native.Mathlib.Nat.{pow-suc}

-- the `w` lowest bytes, the lowest first
unfoldable pub to_le_bytes : ℕ → ℕ → Bytes
to_le_bytes zero n = []
to_le_bytes (suc w) n = (n % 256) ∷ to_le_bytes w (n / 256)

-- the `w` lowest bytes, the lowest last
unfoldable pub to_be_bytes : ℕ → ℕ → Bytes
to_be_bytes zero n = []
to_be_bytes (suc w) n = to_be_bytes w (n / 256) ++ (n % 256) ∷ []

pub length-to_le_bytes : (w n : ℕ) → length (to_le_bytes w n) ≡ w
unfolding to_le_bytes
length-to_le_bytes zero n = refl
length-to_le_bytes (suc w) n = ap suc (length-to_le_bytes w (n / 256))

pub length-to_be_bytes : (w n : ℕ) → length (to_be_bytes w n) ≡ w
unfolding to_be_bytes
length-to_be_bytes zero n = refl
length-to_be_bytes (suc w) n = omega (
  arith,
  length-append (to_be_bytes w (n / 256)) ((n % 256) ∷ []),
  length-to_be_bytes w (n / 256),
)

div-lt-pow : (w n : ℕ) → n < 256 ^ suc w → n / 256 < 256 ^ w
div-lt-pow w n h = let p = pow-suc 256 w in omega (arith, p)

-- Numbers in range are told apart by their bytes.
pub to_le_bytes-injective :
    (w n m : ℕ) → n < 256 ^ w → m < 256 ^ w → to_le_bytes w n ≡ to_le_bytes w m → n ≡ m
unfolding to_le_bytes
to_le_bytes-injective zero n m hn hm e = omega arith
to_le_bytes-injective (suc w) n m hn hm e =
    let low : n % 256 ≡ m % 256 = cc in
    let high =
      to_le_bytes-injective w (n / 256) (m / 256) (div-lt-pow w n hn) (div-lt-pow w m hm) (cc) in
    omega (arith, low, high)
