-- ===== src/Config/Fork.antt =====
-- The fork that `active_fork` returns.
use mathlib.Core.List.{reverse, reverse-append, reverse-reverse}
use steel.Prelude.{
  ℕ, ◌≤◌, ◌<◌, ◌≡◌, ◌⊎◌, inl, inr, sym, true, List, [], ◌∷◌, ◌++◌, arith, ltb, ltb→lt, All,
  Bool-cases, ◌==◌,
}
use steel.Outcome.{ok}
use steel.Header.{EvmSpecId}
use steel.Config.Spec.{
  ForkCondition, block, timestamp, active, ChainSpec, insert, insert_all, from, find_active,
  active_fork,
}

abbrev pub Any : {A : Type 0} → (A → Type 0) → List A → Type 0
Any P [] = ⊥
Any P (x ∷ xs) = P x ⊎ Any P xs

-- A fork that is active in a block stays active in later ones.
active_mono :
    (f : ForkCondition) (n m t u : ℕ) → n ≤ m → t ≤ u → active f n t ≡ true → active f m u ≡ true
unfolding active
active_mono (block b) n m t u h k e = ground arith
active_mono (timestamp b) n m t u h k e = ground arith

module _ {S : Type 0} (ids : EvmSpecId S) where
  abbrev Below : ℕ → S × ForkCondition → Type 0
  Below r e = ids.rank e.0 < r

  abbrev Above : ℕ → S × ForkCondition → Type 0
  Above r e = r < ids.rank e.0

  abbrev IsDescending : List (S × ForkCondition) → Type 0
  IsDescending [] = Unit
  IsDescending ((s, f) ∷ forks) = All (Below (ids.rank s)) forks × IsDescending forks

  -- The order of the keys of a `BTreeMap`.
  abbrev pub IsAscending : List (S × ForkCondition) → Type 0
  IsAscending [] = Unit
  IsAscending ((s, f) ∷ forks) = All (Above (ids.rank s)) forks × IsAscending forks

  All-append :
      (P : S × ForkCondition → Type 0) (xs ys : List (S × ForkCondition))
      → All P xs
      → All P ys
      → All P (xs ++ ys)
  All-append P [] ys h k = k
  All-append P (x ∷ xs) ys h k = (h.0, All-append P xs ys h.1 k)

  All-reverse :
      (P : S × ForkCondition → Type 0) (xs : List (S × ForkCondition))
      → All P xs
      → All P (reverse xs)
  All-reverse P [] h = tt
  All-reverse P (x ∷ xs) h =
      rw (reverse-append (x ∷ []) xs)
        (All-append P (reverse xs) (x ∷ []) (All-reverse P xs h.1) (h.0, tt))

  IsDescending-append :
      (xs : List (S × ForkCondition)) (s : S) (f : ForkCondition)
      → IsDescending xs
      → All (Above (ids.rank s)) xs
      → IsDescending (xs ++ (s, f) ∷ [])
  IsDescending-append [] s f h k = (tt, tt)
  IsDescending-append ((t, g) ∷ xs) s f h k = (
    All-append (Below (ids.rank t)) xs ((s, f) ∷ []) h.0 (k.0, tt),
    IsDescending-append xs s f h.1 k.1,
  )

  IsDescending-reverse :
      (xs : List (S × ForkCondition)) → IsAscending xs → IsDescending (reverse xs)
  IsDescending-reverse [] h = tt
  IsDescending-reverse ((s, f) ∷ xs) h = rw (reverse-append ((s, f) ∷ []) xs) (
      IsDescending-append (reverse xs) s f (IsDescending-reverse xs h.1)
        (All-reverse (Above (ids.rank s)) xs h.0))

  -- What holds of all forks of the list holds of the one that is found.
  find_active-Below :
      (r : ℕ) (forks : List (S × ForkCondition)) (n t : ℕ) {s : S}
      → All (Below r) forks
      → find_active forks n t ≡ ok s
      → ids.rank s < r
  unfolding find_active
  find_active-Below r [] n t h e = cc
  find_active-Below r ((s, f) ∷ forks) n t {s = u} h e = elim (Bool-cases (active f n t)) [
    | inl yes_now ↦ let same : s ≡ u = cc in rw (sym same) h.0
    | inr not_now ↦ find_active-Below r forks n t h.1 (rw not_now at e)
  ]

  find_active_mono :
      (forks : List (S × ForkCondition)) (n m t u : ℕ) (a : S)
      → IsDescending forks
      → n ≤ m
      → t ≤ u
      → find_active forks n t ≡ ok a
      → (b : S) × (find_active forks m u ≡ ok b) × (ids.rank a ≤ ids.rank b)
  unfolding find_active
  find_active_mono [] n m t u a d h k e = cc
  find_active_mono ((s, f) ∷ forks) n m t u a d h k e = elim (Bool-cases (active f n t)) [
    | inl yes_now ↦
        let same : s ≡ a = cc in (s, rw (active_mono f n m t u h k yes_now), rw same (omega arith))
    | inr not_now ↦ elim (Bool-cases (active f m u)) [
      | inl later ↦
          let low = find_active-Below (ids.rank s) forks n t d.0 (rw not_now at e) in
          (s, rw later, omega (arith, low))
      | inr still ↦
          let (b, p, q) = find_active_mono forks n m t u a d.1 h k (rw not_now at e) in
          (b, rw still p, q)
    ]
  ]

  -- If a fork is active in a block, then a fork is active in every block that is not before it, by
  -- number and by timestamp, and it is not an earlier fork.
  pub active_fork_mono :
      (spec : ChainSpec S) (n m t u : ℕ) (a : S)
      → IsAscending spec.forks
      → n ≤ m
      → t ≤ u
      → active_fork spec n t ≡ ok a
      → (b : S) × (active_fork spec m u ≡ ok b) × (ids.rank a ≤ ids.rank b)
  unfolding active_fork
  active_fork_mono spec n m t u a sorted h k e =
      find_active_mono (reverse spec.forks) n m t u a (IsDescending-reverse spec.forks sorted) h k e

  All-Below :
      {s a : S} (n t : ℕ)
      → s ≡ a
      → (forks : List (S × ForkCondition)) → All (Below (ids.rank s)) forks
      → All (λ e. active e.1 n t ≡ true → ids.rank e.0 ≤ ids.rank a) forks
  All-Below n t same [] h = tt
  All-Below n t same (e ∷ forks) h =
      ((λ on. rw (← same) (omega (arith, h.0))), All-Below n t same forks h.1)

  Any-append :
      (P : S × ForkCondition → Type 0) (xs ys : List (S × ForkCondition))
      → Any P (xs ++ ys)
      → Any P xs ⊎ Any P ys
  Any-append P [] ys h = inr h
  Any-append P (x ∷ xs) ys (inl p) = inl (inl p)
  Any-append P (x ∷ xs) ys (inr h) = elim (Any-append P xs ys h) [
    | inl k ↦ inl (inr k)
    | inr k ↦ inr k
  ]

  Any-reverse :
      (P : S × ForkCondition → Type 0) (xs : List (S × ForkCondition))
      → Any P (reverse xs)
      → Any P xs
  Any-reverse P [] h = h
  Any-reverse P (x ∷ xs) h =
      elim (Any-append P (reverse xs) (x ∷ []) (rw (reverse-append (x ∷ []) xs) at h)) [
        | inl k ↦ inr (Any-reverse P xs k)
        | inr k ↦ elim k [ inl p ↦ inl p | inr none_left ↦ absurd none_left ]
      ]

  -- The fork found is an entry of the list that is active, and no active entry is later.
  find_active_lem :
      (forks : List (S × ForkCondition)) (n t : ℕ) (a : S)
      → IsDescending forks
      → find_active forks n t ≡ ok a
      → Any (λ e. (e.0 ≡ a) × (active e.1 n t ≡ true)) forks
        × All (λ e. active e.1 n t ≡ true → ids.rank e.0 ≤ ids.rank a) forks
  unfolding find_active
  find_active_lem [] n t a d e = cc
  find_active_lem ((s, f) ∷ forks) n t a d e = elim (Bool-cases (active f n t)) [
    | inl yes_now ↦
        let same : s ≡ a = cc in
        (inl (same, yes_now), ((λ h. rw same (omega arith)), All-Below n t same forks d.0))
    | inr not_now ↦
        let (has, rest) = find_active_lem forks n t a d.1 (rw not_now at e) in
        (inr has, ((λ h. cc), rest))
  ]

  -- The fork that `active_fork` returns is one of the chain, active in the block, and no fork that
  -- is active in the block comes after it.
  pub active_fork_lem :
      (spec : ChainSpec S) (n t : ℕ) (a : S)
      → IsAscending spec.forks
      → active_fork spec n t ≡ ok a
      → Any (λ e. (e.0 ≡ a) × (active e.1 n t ≡ true)) spec.forks
        × All (λ e. active e.1 n t ≡ true → ids.rank e.0 ≤ ids.rank a) spec.forks
  unfolding active_fork
  active_fork_lem spec n t a sorted e =
      let (has, rest) =
        find_active_lem (reverse spec.forks) n t a (IsDescending-reverse spec.forks sorted) e in
      (
        Any-reverse _ spec.forks has,
        rw (reverse-reverse spec.forks) at (All-reverse _ (reverse spec.forks) rest),
      )

  insert-Above :
      (r : ℕ) (s : S) (f : ForkCondition) (forks : List (S × ForkCondition))
      → r < ids.rank s
      → All (Above r) forks
      → All (Above r) (insert ids s f forks)
  unfolding insert
  insert-Above r s f [] h k = (h, tt)
  insert-Above r s f ((t, g) ∷ forks) h k = elim (Bool-cases (ltb (ids.rank s) (ids.rank t))) [
    | inl e ↦ rw e (h, k)
    | inr e ↦ elim (Bool-cases (ids.rank s == ids.rank t)) [
      | inl same ↦ rw (e, same) (h, k.1)
      | inr other ↦ rw (e, other) (k.0, insert-Above r s f forks h k.1)
    ]
  ]

  Above-trans :
      (q r : ℕ) (forks : List (S × ForkCondition))
      → q ≤ r
      → All (Above r) forks
      → All (Above q) forks
  Above-trans q r [] h k = tt
  Above-trans q r (e ∷ forks) h k = (omega (arith, k.0), Above-trans q r forks h k.1)

  insert-IsAscending :
      (s : S) (f : ForkCondition) (forks : List (S × ForkCondition))
      → IsAscending forks
      → IsAscending (insert ids s f forks)
  unfolding insert
  insert-IsAscending s f [] h = (tt, tt)
  insert-IsAscending s f ((t, g) ∷ forks) h = elim (Bool-cases (ltb (ids.rank s) (ids.rank t))) [
    | inl e ↦
        let low : ids.rank s < ids.rank t = ltb→lt _ _ e in
        rw e ((low, Above-trans (ids.rank s) (ids.rank t) forks (omega (arith, low)) h.0), h)
    | inr e ↦ elim (Bool-cases (ids.rank s == ids.rank t)) [
      | inl same ↦
          rw (e, same) (Above-trans (ids.rank s) (ids.rank t) forks (ground arith) h.0, h.1)
      | inr other ↦
          rw (e, other)
            (
              insert-Above (ids.rank t) s f forks (ground arith) h.0,
              insert-IsAscending s f forks h.1,
            )
    ]
  ]

  -- A map built from entries in any order has its forks in order.
  insert_all-IsAscending :
      (entries forks : List (S × ForkCondition))
      → IsAscending forks
      → IsAscending (insert_all ids entries forks)
  unfolding insert_all
  insert_all-IsAscending [] forks h = h
  insert_all-IsAscending ((s, f) ∷ entries) forks h =
      insert_all-IsAscending entries (insert ids s f forks) (insert-IsAscending s f forks h)

  pub from-IsAscending : (entries : List (S × ForkCondition)) → IsAscending (from ids entries)
  unfolding from
  from-IsAscending entries = insert_all-IsAscending entries [] tt
