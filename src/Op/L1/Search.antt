-- ===== src/Op/L1/Search.antt =====
-- crates/op-steel/src/l1.rs: the binary search for the block with a timestamp.
use steel.Prelude.{
  ℕ, zero, suc, ◌+◌, ◌-◌, ◌/◌, ◌^◌, ◌≤◌, ◌<◌, ◌≡◌, ◌≢◌, inl, inr, refl, Option, none, some, arith,
  ltb, ltb→lt, ◌==◌, ==_iff, Bool-cases,
}
use steel.Outcome.{Outcome, ok, ◌>>=◌}
use steel.Op.L1.{L1Block, less, equal, greater, cmp, add_u64, search}

-- what a search of the blocks from `lo` to `hi` may return
abbrev pub Finds : (ℕ → ℕ) → ℕ → ℕ → ℕ → Option ℕ → Type 0
Finds ts target lo hi (some b) = (lo ≤ b) × (b < hi) × (ts b ≡ target)
Finds ts target lo hi none = (b : ℕ) → lo ≤ b → b < hi → ts b ≢ target

module _ (l1 : L1Block) (target : ℕ) (ts : ℕ → ℕ) where
  -- The node knows the timestamps of all blocks, which do not fall.
  abbrev pub IsMonotone : Type 0
  IsMonotone = (a b : ℕ) → a ≤ b → ts a ≤ ts b

  abbrev pub Knows : Type 0
  Knows = (b : ℕ) → l1.timestamp b ≡ ok (ts b)

  module _ (knows : Knows) (mono : IsMonotone) where
    lower-Finds :
        (lo mid hi : ℕ) (r : Option ℕ)
        → lo ≤ mid
        → mid < hi
        → target < ts mid
        → Finds ts target lo mid r
        → Finds ts target lo hi r
    lower-Finds lo mid hi (some b) p q h f = omega arith
    lower-Finds lo mid hi none p q h f = λ b x y e. elim (Bool-cases (ltb b mid)) [
      | inl t ↦ f b x (ltb→lt b mid t) e
      | inr t ↦ absurd (ground (arith, mono mid b))
    ]

    upper-Finds :
        (lo mid hi : ℕ) (r : Option ℕ)
        → lo ≤ mid
        → mid < hi
        → ts mid < target
        → Finds ts target (mid + 1) hi r
        → Finds ts target lo hi r
    upper-Finds lo mid hi (some b) p q h f = omega arith
    upper-Finds lo mid hi none p q h f = λ b x y e. elim (Bool-cases (ltb mid b)) [
      | inl t ↦ f b (omega (arith, ltb→lt mid b t)) y e
      | inr t ↦ absurd (ground (arith, mono b mid))
    ]

    -- the comparison at the middle, given what the two halves find
    compare_mid :
        (lo mid hi : ℕ) (lower upper : Outcome (Option ℕ))
        → lo ≤ mid
        → mid < hi
        → ((r : Option ℕ) × (lower ≡ ok r) × Finds ts target lo mid r)
        → ((r : Option ℕ) × (upper ≡ ok r) × Finds ts target (mid + 1) hi r)
        → (r : Option ℕ) × ((elim (cmp (ts mid) target) [
          | less ↦ upper
          | equal ↦ ok (some mid)
          | greater ↦ lower
        ])
            ≡ ok r)
          × Finds ts target lo hi r
    unfolding cmp
    compare_mid lo mid hi lower upper p q (r, e, f) (r', e', f') =
        elim (Bool-cases (ltb (ts mid) target)) [
          | inl t ↦ (r', rw t e', upper-Finds lo mid hi r' p q (ltb→lt _ _ t) f')
          | inr t ↦ elim (Bool-cases (ts mid == target)) [
            | inl s ↦ (some mid, rw (t, s) refl, (p, q, (==_iff (ts mid) target).0 s))
            | inr s ↦ (r, rw (t, s) e, lower-Finds lo mid hi r p q (ground arith) f)
          ]
        ]

    add_u64-eq-ok : (a b : ℕ) → a + b < 2 ^ 64 → add_u64 a b ≡ ok (a + b)
    unfolding add_u64
    add_u64-eq-ok a b h = ground arith

    -- With timestamps that do not fall, and a range that ends at 2 ^ 63 at most, so that no sum of two
    -- of its bounds overflows, the binary search ends within `hi - lo` rounds and does not panic: it
    -- finds a block of the range with the timestamp, or else there is none.
    pub search-Finds :
        (fuel lo hi : ℕ)
        → hi - lo ≤ fuel
        → hi ≤ 2 ^ 63
        → (r : Option ℕ) × (search l1 target fuel lo hi ≡ ok r) × Finds ts target lo hi r
    unfolding search
    search-Finds zero lo hi h w = elim (Bool-cases (ltb lo hi)) [
      | inr e ↦ (none, rw e refl, λ b x y q. absurd (ground arith))
      | inl e ↦ absurd (omega (arith, ltb→lt lo hi e))
    ]
    search-Finds (suc fuel) lo hi h w = elim (Bool-cases (ltb lo hi)) [
      | inr e ↦ (none, rw e refl, λ b x y q. absurd (ground arith))
      | inl e ↦
          let mid = (lo + hi) / 2 in
          let p : lo < hi = ltb→lt lo hi e in
          let (r, q, f) = search-Finds fuel lo mid (omega arith) (omega arith) in
          let (r', q', f') = search-Finds fuel (mid + 1) hi (omega arith) w in
          let above = add_u64-eq-ok mid 1 (omega arith) in
          let (x, found, good) =
            compare_mid lo mid hi (search l1 target fuel lo mid)
              (add_u64 mid 1 >>= λ next. search l1 target fuel next hi) (omega arith) (omega arith)
              (r, q, f) (r', rw above q', f') in
          (x, rw (e, add_u64-eq-ok lo hi (omega arith), knows mid) found, good)
    ]
