-- ===== src/Prelude/Maps.antt =====
-- Hash maps keyed by byte strings, and hash sets of byte strings or numbers. A map is the list of
-- its entries, in the order in which an iteration visits them; every theorem holds for each order.
use Prim.Native.Nat.{ℕ}
use mathlib.Core.Path.{◌≡◌, refl}
use mathlib.Core.Bool.{Bool, true, false, ◌||◌, ◌&&◌}
use mathlib.Core.List.{List, [], ◌∷◌}
use mathlib.Core.Option.{Option, none, some}
use native.Mathlib.Omega.{arith}
use steel.Prelude.Tests.{if◌then◌else◌, ◌==◌, Bool-cases}
use mathlib.Core.Logic.{inl, inr}
use steel.Prelude.Lists.{length}
use steel.Prelude.ByteStrings.{Bytes, bytes_eq, bytes_eq_refl, bytes_eq_iff}

abbrev pub HashMap : Type 0 → Type 0
HashMap V = List (Bytes × V)

abbrev pub HashSet : Type 0
HashSet = List Bytes

module _ {V : Type 0} where
  unfoldable pub lookup : Bytes → HashMap V → Option V
  unfolding bytes_eq
  lookup k [] = none
  lookup k ((j, v) ∷ m) = if bytes_eq j k then some v else lookup k m

  unfoldable pub insert : Bytes → V → HashMap V → HashMap V
  unfolding bytes_eq
  insert k v [] = (k, v) ∷ []
  insert k v ((j, w) ∷ m) = if bytes_eq j k then (j, v) ∷ m else (j, w) ∷ insert k v m

  unfoldable pub keys : HashMap V → List Bytes
  keys [] = []
  keys ((k, v) ∷ m) = k ∷ keys m

  unfoldable pub values : HashMap V → List V
  values [] = []
  values ((k, v) ∷ m) = v ∷ values m

  -- a key stands in one entry at most
  abbrev pub NodupKeys : HashMap V → Type 0
  NodupKeys [] = Unit
  NodupKeys ((k, v) ∷ m) = (lookup k m ≡ none) × NodupKeys m

  pub lookup-nil : (k : Bytes) → lookup k [] ≡ none
  unfolding lookup
  lookup-nil k = refl

  pub lookup-cons :
      (k j : Bytes) (v : V) (m : HashMap V)
      → lookup j ((k, v) ∷ m) ≡ (if bytes_eq k j then some v else lookup j m)
  unfolding lookup
  lookup-cons k j v m = refl

  pub lookup-insert :
      (k j : Bytes) (v : V) (m : HashMap V)
      → lookup j (insert k v m) ≡ (if bytes_eq k j then some v else lookup j m)
  unfolding lookup insert
  lookup-insert k j v [] = refl
  lookup-insert k j v ((i, w) ∷ m) =
      ground (arith, bytes_eq_iff k j, bytes_eq_iff i k, bytes_eq_iff i j, lookup-insert k j v m)

  -- an entry of a key that does not stand before it
  pub later_entry :
      (k j : Bytes) (v w : V) (m : HashMap V)
      → lookup k m ≡ none
      → lookup j m ≡ some w
      → lookup j ((k, v) ∷ m) ≡ some w
  later_entry k j v w m fresh e = ground (arith, lookup-cons k j v m, bytes_eq_iff k j)

  pub insert-NodupKeys :
      (k : Bytes) (v : V) (m : HashMap V) → NodupKeys m → NodupKeys (insert k v m)
  unfolding insert
  insert-NodupKeys k v [] u = (lookup-nil k, tt)
  insert-NodupKeys k v ((j, w) ∷ m) (fresh, u) = elim (Bool-cases (bytes_eq j k)) [
    | inl e ↦ rw e (fresh, u)
    | inr e ↦ rw e (
      ground (arith, lookup-insert k j v m, bytes_eq_iff k j, bytes_eq_iff j k),
      insert-NodupKeys k v m u,
    )
  ]

  pub lookup-insert_self : (k : Bytes) (v : V) (m : HashMap V) → lookup k (insert k v m) ≡ some v
  lookup-insert_self k v m = ground (arith, lookup-insert k k v m, bytes_eq_refl k)

-- `HashSet::contains` and `HashSet::insert`
unfoldable pub contains : Bytes → HashSet → Bool
unfolding bytes_eq
contains k [] = false
contains k (j ∷ s) = bytes_eq j k || contains k s

unfoldable pub add : Bytes → HashSet → HashSet
unfolding contains
add k s = if contains k s then s else k ∷ s

unfoldable pub contains_number : ℕ → List ℕ → Bool
contains_number k [] = false
contains_number k (j ∷ s) = j == k || contains_number k s

unfoldable pub add_number : ℕ → List ℕ → List ℕ
unfolding contains_number
add_number k s = if contains_number k s then s else k ∷ s

pub contains-add :
    (k j : Bytes) (s : HashSet) → contains j (add k s) ≡ (bytes_eq k j || contains j s)
unfolding add contains
contains-add k j s = ground (arith, bytes_eq_iff k j)

pub contains_number-add_number :
    (k j : ℕ) (s : List ℕ) → contains_number j (add_number k s) ≡ (k == j || contains_number j s)
unfolding add_number contains_number
contains_number-add_number k j s = ground arith

-- `==` of lists of byte strings, of hash sets and of hash maps
unfoldable pub all_equal : List Bytes → List Bytes → Bool
unfolding bytes_eq
all_equal [] [] = true
all_equal (a ∷ x) (b ∷ y) = bytes_eq a b && all_equal x y
all_equal _ _ = false

unfoldable pub subset : HashSet → HashSet → Bool
unfolding contains
subset [] t = true
subset (k ∷ s) t = contains k t && subset s t

unfoldable pub set_eq : HashSet → HashSet → Bool
unfolding subset
set_eq s t = length s == length t && subset s t

abbrev pub some_equal : {V : Type 0} → (V → V → Bool) → V → Option V → Bool
some_equal eq v none = false
some_equal eq v (some w) = eq v w

unfoldable pub submap : {V : Type 0} → (V → V → Bool) → HashMap V → HashMap V → Bool
unfolding lookup
submap eq [] m = true
submap eq ((k, v) ∷ l) m = some_equal eq v (lookup k m) && submap eq l m

unfoldable pub map_eq : {V : Type 0} → (V → V → Bool) → HashMap V → HashMap V → Bool
unfolding submap
map_eq eq l m = length l == length m && submap eq l m
