-- ===== src/Prelude/ByteStrings.antt =====
-- Byte strings. Digests (`B256`) and addresses are byte strings too; a `U256`, a `u64` and a
-- `usize` are numbers.
use Prim.Native.Nat.{ℕ}
use mathlib.Core.Path.{◌≡◌, refl}
use mathlib.Core.Logic.{◌↔◌, ◌≢◌}
use mathlib.Core.Bool.{Bool, true, false, ◌&&◌}
use mathlib.Core.List.{List, [], ◌∷◌}
use native.Mathlib.Omega.{arith}
use steel.Prelude.Tests.{◌==◌}

abbrev pub Bytes : Type 0
Bytes = List ℕ

abbrev pub B256 : Type 0
B256 = Bytes

abbrev pub Address : Type 0
Address = Bytes

-- `a == b` on byte strings
unfoldable pub bytes_eq : Bytes → Bytes → Bool
bytes_eq [] [] = true
bytes_eq (a ∷ x) (b ∷ y) = a == b && bytes_eq x y
bytes_eq _ _ = false

pub bytes_eq→eq : (x y : Bytes) → bytes_eq x y ≡ true → x ≡ y
unfolding bytes_eq
bytes_eq→eq [] [] h = refl
bytes_eq→eq [] (b ∷ y) h = cc
bytes_eq→eq (a ∷ x) [] h = cc
bytes_eq→eq (a ∷ x) (b ∷ y) h = ground (arith, bytes_eq→eq x y)

pub bytes_eq_refl : (x : Bytes) → bytes_eq x x ≡ true
unfolding bytes_eq
bytes_eq_refl [] = refl
bytes_eq_refl (a ∷ x) = ground (arith, bytes_eq_refl x)

pub eq→bytes_eq : (x y : Bytes) → x ≡ y → bytes_eq x y ≡ true
eq→bytes_eq x y e = rw e (bytes_eq_refl y)

pub bytes_eq_iff : (x y : Bytes) → (bytes_eq x y ≡ true) ↔ (x ≡ y)
bytes_eq_iff x y = (bytes_eq→eq x y, eq→bytes_eq x y)

pub bytes_eq-ne : (x y : Bytes) → bytes_eq x y ≡ false → x ≢ y
bytes_eq-ne x y h e = cc (eq→bytes_eq x y e)
