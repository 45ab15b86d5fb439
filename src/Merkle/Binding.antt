-- ===== src/Merkle/Binding.antt =====
-- A root proves at most one leaf at an index.
use steel.Prelude.{
  ℕ, ◌-◌, ◌/◌, ◌%◌, ◌^◌, ◌≡◌, ◌⊎◌, inl, inr, sym, ◌∙◌, Bytes, B256, List, [], ◌∷◌, ◌++◌, arith,
  length, append-injective, ◌==◌, bytes_eq, bytes_eq→eq, bytes_eq-ne, bytes_eq_iff, ◌↔◌, not,
  if◌then◌else◌, All, Bool-cases,
}
use steel.Outcome.{Outcome, ok, err, panic, out_of_fuel, invalid_proof, ◌>>=◌}
use steel.Codec.{Codec, Collision}
use steel.Merkle.Log.{ilog2}
use steel.Merkle.Proof.{parent, climb, process_proof, verify}

abbrev pub IsDigest : B256 → Type 0
IsDigest x = length x ≡ 32

module _ (c : Codec) (sized : (x : Bytes) → IsDigest (c.sha256 x)) where
  abbrev Agree : {A : Type 0} → A → A → Type 0
  Agree a b = (a ≡ b) ⊎ Collision c.sha256

  sha256_eq : (x y : Bytes) → c.sha256 x ≡ c.sha256 y → Agree x y
  sha256_eq x y e = elim (Bool-cases (bytes_eq x y)) [
    | inl same ↦ inl (bytes_eq→eq x y same)
    | inr other ↦ inr (x, y, bytes_eq-ne x y other, e)
  ]

  parent-IsDigest : (i : ℕ) (x n : B256) → IsDigest (parent c i x n)
  unfolding parent
  parent-IsDigest i x n = elim (Bool-cases (not (i % 2 == 0))) [
    | inl e ↦ rw e (sized _)
    | inr e ↦ rw e (sized _)
  ]

  parent_eq :
      (i : ℕ) (x y n m : B256)
      → IsDigest x
      → IsDigest y
      → IsDigest n
      → IsDigest m
      → parent c i x n ≡ parent c i y m
      → Agree x y
  unfolding parent
  parent_eq i x y n m hx hy hn hm e = elim (Bool-cases (not (i % 2 == 0))) [
    | inl odd ↦ elim (sha256_eq (n ++ x) (m ++ y) (rw odd at e)) [
      | inl same ↦ inl ((append-injective n m x y (hn ∙ sym hm) same).1)
      | inr collision ↦ inr collision
    ]
    | inr even ↦ elim (sha256_eq (x ++ n) (y ++ m) (rw even at e)) [
      | inl same ↦ inl ((append-injective x y n m (hx ∙ sym hy) same).0)
      | inr collision ↦ inr collision
    ]
  ]

  climb_eq :
      (i : ℕ) (x y : B256) (branch other : List B256)
      → IsDigest x
      → IsDigest y
      → All IsDigest branch
      → All IsDigest other
      → length branch ≡ length other
      → climb c i x branch ≡ climb c i y other
      → Agree x y
  unfolding climb
  climb_eq i x y [] [] hx hy hb ho l e = inl e
  climb_eq i x y [] (m ∷ other) hx hy hb ho l e = absurd (omega arith)
  climb_eq i x y (n ∷ branch) [] hx hy hb ho l e = absurd (omega arith)
  climb_eq i x y (n ∷ branch) (m ∷ other) hx hy hb ho l e =
      elim (climb_eq (i / 2) (parent c i x n) (parent c i y m) branch other (parent-IsDigest i x n)
        (parent-IsDigest i y m) hb.1 ho.1 (omega arith) e) [
          | inl same ↦ parent_eq i x y n m hx hy hb.0 ho.0 same
          | inr collision ↦ inr collision
        ]

  process_proof-eq-ok :
      (leaf : B256) (branch : List B256) (g : ℕ) (root : B256)
      → process_proof c leaf branch g ≡ ok root
      → (length branch ≡ ilog2 g) × (climb c (g - 2 ^ ilog2 g) leaf branch ≡ root)
  unfolding process_proof
  process_proof-eq-ok leaf branch g root e = ground arith

  -- If two leaves have proofs for one generalized index that rebuild the same root, then the leaves
  -- are the same, or there are two inputs, given here, on which sha256 collides. Leaves, siblings and
  -- hashes are digests of 32 bytes.
  pub process_proof-binding :
      (leaf other_leaf : B256) (branch other : List B256) (g : ℕ) (root : B256)
      → IsDigest leaf
      → IsDigest other_leaf
      → All IsDigest branch
      → All IsDigest other
      → process_proof c leaf branch g ≡ ok root
      → process_proof c other_leaf other g ≡ ok root
      → (leaf ≡ other_leaf) ⊎ Collision c.sha256
  process_proof-binding leaf other_leaf branch other g root hx hy hb ho e e' =
      let (l, p) = process_proof-eq-ok leaf branch g root e in
      let (l', p') = process_proof-eq-ok other_leaf other g root e' in
      climb_eq (g - 2 ^ ilog2 g) leaf other_leaf branch other hx hy hb ho (l ∙ sym l') (p ∙ sym p')

verify_iff :
    (o : Outcome B256) (root : B256)
    → ◌≡◌ {A = Outcome (Unit {0})}
        (o >>= λ computed. if bytes_eq computed root then ok tt else err invalid_proof)
        (ok tt)
      ↔ (o ≡ ok root)
verify_iff (ok x) root = ground (arith, bytes_eq_iff x root)
verify_iff (err e) root = (λ h. cc, λ h. cc)
verify_iff (panic m) root = (λ h. cc, λ h. cc)
verify_iff out_of_fuel root = (λ h. cc, λ h. cc)

-- `verify` accepts exactly the root that the proof rebuilds.
pub verify-process_proof :
    (c : Codec) (leaf : B256) (branch : List B256) (g : ℕ) (root : B256)
    → (verify c leaf branch g root ≡ ok tt) ↔ (process_proof c leaf branch g ≡ ok root)
unfolding verify
verify-process_proof c leaf branch g root = verify_iff (process_proof c leaf branch g) root
