-- ===== src/Outcome.antt =====
-- How a call ends: a value, the `Err` of a `Result` (the `Error` types of the crate and of its RLP
-- library are one type here), a panic with the message of the assertion, the `expect` or the
-- `panic!` that failed, or, in the loops that are given fuel, a run that did not end.
use steel.Prelude.{String, ◌≡◌, refl, Bool, true, false}

-- `alloy_rlp::Error`, as far as the crate constructs it; `other` stands for the library's own
pub data RlpError : Type 0 where
  input_too_short unexpected_length : RlpError
  custom : String → RlpError
  other : RlpError

pub data Error : Type 0 where
  rlp : RlpError → Error
  invalid_proof : Error
  invalid_contract invalid_address invalid_state : Error
  reverted : String → Error
  message : String → Error

pub data Outcome {ℓ} (A : Type ℓ) : Type ℓ where
  ok : A → Outcome A
  err : Error → Outcome A
  panic : String → Outcome A
  out_of_fuel : Outcome A

-- `?`, and the go on after a check; a panic stops the run
infixl 5 ◌>>=◌ ◌>>◌
abbrev pub ◌>>=◌ {ℓ κ} : {A : Type ℓ} {B : Type κ} → Outcome A → (A → Outcome B) → Outcome B
panic m >>= next = panic m
out_of_fuel >>= next = out_of_fuel
err e >>= next = err e
ok a >>= next = next a

-- `assert!`
abbrev pub assert : Bool → String → Outcome (Unit {0})
assert true m = ok tt
assert false m = panic m

-- `ensure!`
abbrev pub guard : Bool → Error → Outcome (Unit {0})
guard true reason = ok tt
guard false reason = err reason

abbrev pub ◌>>◌ {ℓ} : {B : Type ℓ} → Outcome (Unit {0}) → Outcome B → Outcome B
check >> rest = check >>= λ _. rest

-- `Result::expect`
abbrev pub expect {ℓ} : {A : Type ℓ} → Outcome A → String → Outcome A
expect (ok a) m = ok a
expect (err e) m = panic m
expect (panic s) m = panic s
expect out_of_fuel m = out_of_fuel

-- Inversion of a successful run.
module _ {ℓ κ} {A : Type ℓ} {B : Type κ} where
  pub >>=-eq-ok :
      (run : Outcome A) (next : A → Outcome B) {last : B}
      → (run >>= next) ≡ ok last
      → (first : A) × (run ≡ ok first) × (next first ≡ ok last)
  >>=-eq-ok out_of_fuel next e = cc
  >>=-eq-ok (panic s) next e = cc
  >>=-eq-ok (err reason) next e = cc
  >>=-eq-ok (ok first) next e = (first, refl, e)

module _ {ℓ} {A : Type ℓ} where
  pub expect-eq-ok : (m : Outcome A) (s : String) {a : A} → expect m s ≡ ok a → m ≡ ok a
  expect-eq-ok (ok a) s h = h
  expect-eq-ok (err e) s h = cc
  expect-eq-ok (panic t) s h = cc
  expect-eq-ok out_of_fuel s h = cc

  pub ok-injective : {a b : A} → ok a ≡ ok b → a ≡ b
  ok-injective h = cc

-- A run that goes on past an assertion, or past a check, met it.
module _ {ℓ} {A : Type ℓ} where
  pub assert->> :
      (b : Bool) (s : String) (m : Outcome A) {a : A}
      → (assert b s >> m) ≡ ok a
      → (b ≡ true) × (m ≡ ok a)
  assert->> true s m h = (refl, h)
  assert->> false s m h = cc

  pub guard->> :
      (b : Bool) (e : Error) (m : Outcome A) {a : A}
      → (guard b e >> m) ≡ ok a
      → (b ≡ true) × (m ≡ ok a)
  guard->> true e m h = (refl, h)
  guard->> false e m h = cc

pub assert-eq-ok : (b : Bool) (s : String) {u : Unit {0}} → assert b s ≡ ok u → b ≡ true
assert-eq-ok true s h = refl
assert-eq-ok false s h = cc
