-- ===== src/Host/BlockId/RoundTrip.antt =====
-- crates/steel/src/host/mod.rs: block numbers and tags as text.
use steel.Prelude.{
  ℕ, zero, suc, ◌+◌, ◌*◌, ◌/◌, ◌%◌, ◌^◌, ◌<◌, ◌≡◌, refl, ap, ◌∙◌, Bytes, [], ◌∷◌, arith, lt→ltb,
  ◌==◌, Bool-cases, inl, inr, false,
}
use steel.Outcome.{ok}
use steel.Host.BlockId.{
  BlockNumberOrTag, latest, parent, safe, finalized, number, digit, hex_digits, hex_value,
  hex_number, some_digits, from_str_radix, strip_prefix, parse_number, fmt, from_str,
}

hex_value-digit : (d : ℕ) → d < 16 → hex_value (digit d) ≡ ok d
unfolding hex_value digit
hex_value-digit d h = ground arith

digit_ne : (d : ℕ) → d < 16 → (digit d == b'+') ≡ false
unfolding digit
digit_ne d h = ground arith

-- reading one digit
hex_number-digit :
    (acc d : ℕ) (rest : Bytes)
    → d < 16
    → acc * 16 + d < 2 ^ 64
    → hex_number acc (digit d ∷ rest) ≡ hex_number (acc * 16 + d) rest
unfolding hex_number
hex_number-digit acc d rest h fits = rw (hex_value-digit d h, lt→ltb _ _ fits) refl

hex_number-hex_digits :
    (fuel n : ℕ) (rest : Bytes)
    → n < fuel
    → n < 2 ^ 64
    → hex_number 0 (hex_digits fuel n rest) ≡ hex_number n rest
unfolding hex_digits
hex_number-hex_digits zero n rest h fits = absurd (omega arith)
hex_number-hex_digits (suc fuel) n rest h fits = elim (Bool-cases (n / 16 == 0)) [
  | inl e ↦
      let small : n % 16 ≡ n = ground arith in
      let plain : 0 * 16 + n ≡ n = omega arith in
      rw (e, small)
        (hex_number-digit 0 n rest (omega arith) (omega arith) ∙ ap (λ k. hex_number k rest) plain)
  | inr e ↦
      let back : n / 16 * 16 + n % 16 ≡ n = omega arith in
      rw e (
        hex_number-hex_digits fuel (n / 16) (digit (n % 16) ∷ rest) (ground arith) (omega arith)
        ∙ hex_number-digit (n / 16) (n % 16) rest (omega arith) (omega arith)
        ∙ ap (λ k. hex_number k rest) back)
]

hex_number-nil : (n : ℕ) → hex_number n [] ≡ ok n
unfolding hex_number
hex_number-nil n = refl

-- the digits of a number start with a digit
hex_digits_head :
    (fuel n : ℕ) (rest : Bytes)
    → n < fuel
    → (d : ℕ) × (more : Bytes) × (d < 16) × (hex_digits fuel n rest ≡ digit d ∷ more)
unfolding hex_digits
hex_digits_head zero n rest h = absurd (omega arith)
hex_digits_head (suc fuel) n rest h = elim (Bool-cases (n / 16 == 0)) [
  | inl e ↦ (n % 16, rest, omega arith, rw e refl)
  | inr e ↦
      let (d, more, small, q) =
        hex_digits_head fuel (n / 16) (digit (n % 16) ∷ rest) (ground arith) in
      (d, more, small, rw e q)
]

from_str_radix-hex_digits : (n : ℕ) → n < 2 ^ 64 → from_str_radix (hex_digits (suc n) n []) ≡ ok n
unfolding from_str_radix some_digits
from_str_radix-hex_digits n fits =
    let (d, more, small, e) = hex_digits_head (suc n) n [] (omega arith) in
    let run : hex_number 0 (hex_digits (suc n) n []) ≡ ok n =
      hex_number-hex_digits (suc n) n [] (omega arith) fits ∙ hex_number-nil n in
    rw (e, digit_ne d small) (rw e at run)

-- the numbers that the program's `u64` holds
abbrev pub Fits : BlockNumberOrTag → Type 0
Fits (number n) = n < 2 ^ 64
Fits _ = Unit

-- Every tag, and every number below 2 ^ 64, is read back from the text that it is written as.
pub from_str-fmt : (block : BlockNumberOrTag) → Fits block → from_str (fmt block) ≡ ok block
unfolding from_str fmt strip_prefix parse_number
from_str-fmt latest fits = refl
from_str-fmt parent fits = refl
from_str-fmt safe fits = refl
from_str-fmt finalized fits = refl
from_str-fmt (number n) fits = rw (from_str_radix-hex_digits n fits) refl
