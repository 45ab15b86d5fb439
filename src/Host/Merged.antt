-- ===== src/Host/Merged.antt =====
-- crates/steel/src/host/db/proof.rs: the entries of a merge, and its panics.
use steel.Prelude.{
  ℕ, ◌≡◌, refl, sym, Bytes, Address, Bool, true, false, ◌||◌, Option, none, some, List, [], ◌∷◌,
  arith, bytes_eq, bytes_eq_iff, bytes_eq_refl, if◌then◌else◌, Option-cases, Bool-cases, inl, inr,
}
use mathlib.Core.Option.{or_else}
use steel.Prelude.Maps.{
  HashMap, HashSet, lookup, later_entry, lookup-nil, lookup-cons, insert, contains_number,
  add_number, contains_number-add_number, lookup-insert, NodupKeys, set_eq,
}
use steel.Outcome.{Outcome, ok, panic, >>=-eq-ok, assert->>, ok-injective}
use steel.Host.Proof.{ProofDb, merge_entry, merge_checked_maps, account_proof_eq}
use steel.Host.Proof.Merge.{merge, extend}

-- the panic of `merge_checked_maps`
abbrev pub mismatch : {A : Type 0} → Outcome A
mismatch = panic "mismatching values for key"

module _ {V : Type 0} (eq : V → V → Bool) where
  -- no key has values in both maps that differ
  abbrev pub Agree : HashMap V → HashMap V → Type 0
  Agree a b = (k : Bytes) (v w : V) → lookup k a ≡ some v → lookup k b ≡ some w → eq v w ≡ true

  merge_entry_lem :
      (m : HashMap V) (k j : Bytes) (v : V) (o : Option V) {m' : HashMap V}
      → lookup k m ≡ o
      → merge_entry eq m k v o ≡ ok m'
      → lookup j m' ≡ or_else (lookup j m) (if bytes_eq k j then some v else none)
  unfolding merge_entry or_else
  merge_entry_lem m k j v none e h =
      rw (sym (ok-injective h)) (ground (arith, lookup-insert k j v m, bytes_eq_iff k j))
  merge_entry_lem m k j v (some w) e h =
      rw (sym (ok-injective (assert->> (eq w v) "mismatching values for key" (ok m) h).1))
        (ground (arith, bytes_eq_iff k j))

  lookup-merge_checked_maps :
      (a b : HashMap V) (j : Bytes) {m : HashMap V}
      → merge_checked_maps eq a b ≡ ok m
      → lookup j m ≡ or_else (lookup j a) (lookup j b)
  unfolding merge_checked_maps lookup or_else
  lookup-merge_checked_maps a [] j e = rw (sym (ok-injective e)) (ground arith)
  lookup-merge_checked_maps a ((k, v) ∷ b) j e =
      let (m', p, q) = >>=-eq-ok (merge_entry eq a k v (lookup k a)) _ e in
      ground
        (arith, merge_entry_lem a k j v (lookup k a) refl p, lookup-merge_checked_maps m' b j q)

  Agree-insert :
      (k : Bytes) (v : V) (a b : HashMap V)
      → lookup k b ≡ none
      → Agree a ((k, v) ∷ b)
      → Agree (insert k v a) b
  Agree-insert k v a b fresh agree j x y p q =
      let later = later_entry k j v y b fresh q in
      ground (arith, lookup-insert k j v a, bytes_eq_iff k j, agree j x y)

  -- Without a conflict the maps are merged.
  pub merge_checked_maps_total :
      (a b : HashMap V)
      → NodupKeys b
      → Agree a b
      → (m : HashMap V) × (merge_checked_maps eq a b ≡ ok m)
  unfolding merge_checked_maps merge_entry
  merge_checked_maps_total a [] u agree = (a, refl)
  merge_checked_maps_total a ((k, v) ∷ b) (fresh, u) agree = elim (Option-cases (lookup k a)) [
    | inl e ↦ rw e (merge_checked_maps_total (insert k v a) b u (Agree-insert k v a b fresh agree))
    | inr (w, e) ↦
        rw (e, agree k w v e (rw (lookup-cons k k v b, bytes_eq_refl k) refl))
          (merge_checked_maps_total a b u
            (λ j x y p q. agree j x y p (later_entry k j v y b fresh q)))
  ]

  -- A conflict panics.
  pub merge_checked_maps-panic :
      (a b : HashMap V) (k : Bytes) (v w : V)
      → lookup k a ≡ some v
      → lookup k b ≡ some w
      → eq v w ≡ false
      → merge_checked_maps eq a b ≡ mismatch
  unfolding merge_checked_maps merge_entry
  merge_checked_maps-panic a [] k v w p q h = cc (lookup-nil k)
  merge_checked_maps-panic a ((j, x) ∷ b) k v w p q h = elim (Bool-cases (bytes_eq j k)) [
    | inl same ↦
        let at : lookup j a ≡ some v = rw ((bytes_eq_iff j k).0 same) p in
        let is : x ≡ w = ground (arith, lookup-cons j k x b) in rw (at, is, h) refl
    | inr other ↦
        let rest : lookup k b ≡ some w = ground (arith, lookup-cons j k x b) in
        elim (Option-cases (lookup j a)) [
          | inl e ↦ rw e (
              merge_checked_maps-panic (insert j x a) b k v w (rw (lookup-insert j k x a, other) p)
                rest h)
          | inr (y, e) ↦ elim (Bool-cases (eq y x)) [
            | inl good ↦ rw (e, good) (merge_checked_maps-panic a b k v w p rest h)
            | inr bad ↦ rw (e, bad) refl
          ]
        ]
  ]

contains_number-extend :
    (s numbers : List ℕ) (n : ℕ)
    → contains_number n (extend s numbers) ≡ (contains_number n s || contains_number n numbers)
unfolding extend contains_number
contains_number-extend s [] n = ground arith
contains_number-extend s (k ∷ numbers) n =
    ground
      (arith, contains_number-extend (add_number k s) numbers n, contains_number-add_number k n s)

module _ {D : Type 0} where
  -- A merge that returns has, for every address and code hash, the entry of the first database, or
  -- that of the second where the first has none, and the block numbers of both.
  pub merge_lem :
      (self other merged : ProofDb D) (k : Bytes) (n : ℕ)
      → merge self other ≡ ok merged
      → (lookup k merged.accounts ≡ or_else (lookup k self.accounts) (lookup k other.accounts))
        × (lookup k merged.contracts ≡ or_else (lookup k self.contracts) (lookup k other.contracts))
        × (lookup k merged.proofs ≡ or_else (lookup k self.proofs) (lookup k other.proofs))
        × (contains_number n merged.block_hash_numbers ≡ (
            contains_number n self.block_hash_numbers
            || contains_number n other.block_hash_numbers))
        × (merged.inner ≡ self.inner)
  unfolding merge
  merge_lem self other merged k n e =
      let (accounts, p, e1) =
        >>=-eq-ok (merge_checked_maps set_eq self.accounts other.accounts) _ e in
      let (contracts, q, e2) =
        >>=-eq-ok (merge_checked_maps bytes_eq self.contracts other.contracts) _ e1 in
      let (proofs, r, e3) =
        >>=-eq-ok (merge_checked_maps account_proof_eq self.proofs other.proofs) _ e2 in
      rw (sym (ok-injective e3)) (
        lookup-merge_checked_maps set_eq self.accounts other.accounts k p,
        lookup-merge_checked_maps bytes_eq self.contracts other.contracts k q,
        lookup-merge_checked_maps account_proof_eq self.proofs other.proofs k r,
        contains_number-extend self.block_hash_numbers other.block_hash_numbers n,
        refl,
      )

  -- Two databases that recorded different sets of slots for one account cannot be merged: the merge
  -- panics, whatever else they hold.
  pub merge-panic :
      (self other : ProofDb D) (address : Address) (s t : HashSet)
      → lookup address self.accounts ≡ some s
      → lookup address other.accounts ≡ some t
      → set_eq s t ≡ false
      → merge self other ≡ mismatch
  unfolding merge
  merge-panic self other address s t p q h =
      rw (merge_checked_maps-panic set_eq self.accounts other.accounts address s t p q h) refl
