-- ===== src/Merkle/Complete.antt =====
-- The proofs that a tree produces are accepted, at its own root.
use steel.Prelude.{
  ℕ, zero, suc, ◌+◌, ◌-◌, ◌*◌, ◌/◌, ◌%◌, ◌^◌, ◌≤◌, ◌<◌, ◌≡◌, refl, sym, ap, ◌∙◌, B256, true, false,
  some, List, [], ◌∷◌, ◌++◌, arith, length, ltb, lt→ltb, ◌==◌, get_elem?, Bool-cases, inl, inr,
}
use steel.Outcome.{ok}
use steel.Codec.{Codec}
use steel.Merkle.Log.{ilog2, ilog2-pow, pow_double, pow_pos}
use steel.Merkle.Proof.{parent, climb, process_proof}
use steel.Merkle.Tree.{
  MerkleTree, next_power_of_two, new, root, num_leaves, sibling, siblings, proof, zero_hash,
}
use steel.Merkle.Loop.{
  copy_leaves-at, next_power_of_two-pow, le-next_power_of_two, hash_nodes-above, hash_nodes-parent,
}

module _ (c : Codec) (tree : MerkleTree) where
  -- Below `bound`, each node is the hash of its children.
  abbrev IsHashed : ℕ → Type 0
  IsHashed bound =
      (i : ℕ)
      → 1 ≤ i
      → i < bound
      → tree.nodes i ≡ c.sha256 (tree.nodes (2 * i) ++ tree.nodes (2 * i + 1))

  -- One step of the climb: the sibling of `2 * g + b` leads to `g`.
  parent-sibling :
      (index g p : ℕ)
      → 1 ≤ p
      → g / 2 ≡ p
      → index % 2 ≡ g % 2
      → tree.nodes p ≡ c.sha256 (tree.nodes (2 * p) ++ tree.nodes (2 * p + 1))
      → parent c index (tree.nodes g) (tree.nodes (sibling g)) ≡ tree.nodes p
  unfolding parent sibling
  parent-sibling index g p l h par e = elim (Bool-cases (g % 2 == 0)) [
    | inl even ↦
        let here : g ≡ 2 * p = ground arith in
        let next : g + 1 ≡ 2 * p + 1 = ground arith in rw (par, even) (rw (next, here) (sym e))
    | inr odd ↦
        let here : g ≡ 2 * p + 1 = ground arith in
        let before : g - 1 ≡ 2 * p = ground arith in rw (par, odd) (rw (before, here) (sym e))
  ]

  climb-siblings :
      (k index fuel : ℕ)
      → IsHashed (2 ^ k)
      → index < 2 ^ k
      → 2 ^ k + index ≤ fuel
      → climb c index (tree.nodes (2 ^ k + index)) (siblings tree fuel (2 ^ k + index))
        ≡ tree.nodes 1
  unfolding climb siblings
  climb-siblings k index zero hashed h l = absurd (omega (arith, pow_pos k))
  climb-siblings zero index (suc fuel) hashed h l =
      let here : 2 ^ 0 + index ≡ 1 = omega arith in rw here refl
  climb-siblings (suc k) index (suc fuel) hashed h l =
      let two = pow_double k in
      let g = 2 ^ suc k + index in
      let half : g / 2 ≡ 2 ^ k + index / 2 = omega (arith, two) in
      let large : ltb 1 g ≡ true = lt→ltb 1 g (omega (arith, two, pow_pos k)) in
      let up =
        parent-sibling index g (2 ^ k + index / 2) (omega (arith, pow_pos k)) half
          (omega (arith, two))
          (hashed (2 ^ k + index / 2) (omega (arith, pow_pos k)) (omega (arith, two))) in
      rw (large, half, up)
        (climb-siblings k (index / 2) fuel (λ i p q. hashed i p (omega (arith, two)))
          (omega (arith, two)) (omega (arith, two, pow_pos k)))

  length-siblings :
      (k index fuel : ℕ)
      → index < 2 ^ k
      → 2 ^ k + index ≤ fuel
      → length (siblings tree fuel (2 ^ k + index)) ≡ k
  unfolding siblings
  length-siblings k index zero h l = absurd (omega (arith, pow_pos k))
  length-siblings zero index (suc fuel) h l =
      let here : 2 ^ 0 + index ≡ 1 = omega arith in rw here refl
  length-siblings (suc k) index (suc fuel) h l =
      let two = pow_double k in
      let g = 2 ^ suc k + index in
      let half : g / 2 ≡ 2 ^ k + index / 2 = omega (arith, two) in
      let large : ltb 1 g ≡ true = lt→ltb 1 g (omega (arith, two, pow_pos k)) in
      rw (large, half)
        (ap suc
          (length-siblings k (index / 2) fuel (omega (arith, two)) (omega (arith, two, pow_pos k))))

eq_self : (k : ℕ) → (k == k) ≡ true
eq_self k = ground arith

get_elem?-lt :
    (leaves : List B256) (i : ℕ) {x : B256} → get_elem? leaves i ≡ some x → i < length leaves
get_elem?-lt [] i e = cc
get_elem?-lt (y ∷ leaves) zero e = omega arith
get_elem?-lt (y ∷ leaves) (suc i) e = omega (arith, get_elem?-lt leaves i e)

module _ (c : Codec) (leaves : List B256) where
  num_leaves-new : num_leaves (new c leaves) ≡ next_power_of_two (length leaves)
  unfolding num_leaves new
  num_leaves-new = omega arith

  IsHashed-new : IsHashed c (new c leaves) (next_power_of_two (length leaves))
  unfolding new
  IsHashed-new i h l = hash_nodes-parent c (next_power_of_two (length leaves)) _ i h l

  leaf-new :
      (i : ℕ) (x : B256)
      → get_elem? leaves i ≡ some x
      → (new c leaves).nodes (next_power_of_two (length leaves) + i) ≡ x
  unfolding new
  leaf-new i x e =
      let n = next_power_of_two (length leaves) in
      hash_nodes-above c n _ (n + i) (omega arith) ∙ copy_leaves-at (λ j. zero_hash) n i leaves x e

  -- The tree built from a list of leaves produces a proof for each of them, and the proof rebuilds
  -- the root of the tree from that leaf at its generalized index.
  pub process_proof-proof :
      (i : ℕ) (x : B256)
      → get_elem? leaves i ≡ some x
      → (branch : List B256) × (proof (new c leaves) i ≡ ok branch)
        × (process_proof c x branch (num_leaves (new c leaves) + i) ≡ ok (root (new c leaves)))
  unfolding proof process_proof root
  process_proof-proof i x e =
      let n = next_power_of_two (length leaves) in
      let (k, pow) = next_power_of_two-pow (length leaves) in
      let small : i < n =
        omega (arith, get_elem?-lt leaves i e, le-next_power_of_two (length leaves)) in
      let tree = new c leaves in
      let g = num_leaves tree + i in
      let at : g ≡ 2 ^ k + i = rw (num_leaves-new, pow) in
      let inside : i < 2 ^ k = rw pow at small in
      let log : ilog2 g ≡ k = rw at (ilog2-pow k i inside) in
      let branch = siblings tree g g in
      let hashed : IsHashed c tree (2 ^ k) = rw pow at IsHashed-new in
      let depth : length branch ≡ k =
        rw at (length-siblings c tree k i (2 ^ k + i) inside (omega arith)) in
      let up : climb c i x branch ≡ tree.nodes 1 =
        rw (at, ← leaf-new i x e, pow)
          (climb-siblings c tree k i (2 ^ k + i) hashed inside (omega arith)) in
      let fits : ltb i (num_leaves tree) ≡ true =
        lt→ltb i (num_leaves tree) (rw num_leaves-new small) in
      let positive : (g == 0) ≡ false = ground (arith, at, pow_pos k) in
      let index : g - 2 ^ k ≡ i = omega (arith, at) in
      (branch, rw fits, rw (positive, log, depth, index) (rw (eq_self k, up)))
