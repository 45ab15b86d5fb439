-- ===== src/Merkle/Loop.antt =====
-- What the loops of `MerkleTree::new` leave in the array.
use steel.Prelude.{
  ℕ, zero, suc, ◌+◌, ◌*◌, ◌^◌, ◌≤◌, ◌<◌, ◌≡◌, ◌≢◌, refl, ◌∙◌, B256, some, List, [], ◌∷◌, ◌++◌,
  arith, leb, leb→le, ◌==◌, get_elem?, Bool-cases, inl, inr,
}
use steel.Codec.{Codec}
use steel.Merkle.Log.{pow_double}
use steel.Merkle.Tree.{Nodes, write, copy_leaves, hash_nodes, next_power, next_power_of_two}

write_self : (nodes : Nodes) (i : ℕ) (x : B256) → write nodes i x i ≡ x
unfolding write
write_self nodes i x = ground arith

write_ne : (nodes : Nodes) (i j : ℕ) (x : B256) → i ≢ j → write nodes i x j ≡ nodes j
unfolding write
write_ne nodes i j x h = ground arith

-- The leaves stand in order from index `i` on, and what was below stays.
copy_leaves-below :
    (nodes : Nodes) (i j : ℕ) (leaves : List B256) → j < i → copy_leaves nodes i leaves j ≡ nodes j
unfolding copy_leaves
copy_leaves-below nodes i j [] h = refl
copy_leaves-below nodes i j (x ∷ leaves) h =
    copy_leaves-below (write nodes i x) (i + 1) j leaves (omega arith)
    ∙ write_ne nodes i j x (omega arith)

pub copy_leaves-at :
    (nodes : Nodes) (i k : ℕ) (leaves : List B256) (x : B256)
    → get_elem? leaves k ≡ some x
    → copy_leaves nodes i leaves (i + k) ≡ x
unfolding copy_leaves
copy_leaves-at nodes i k [] x h = cc
copy_leaves-at nodes i zero (y ∷ leaves) x h =
    let same : y ≡ x = cc in
    let here : i + 0 ≡ i = omega arith in
    rw here (
      copy_leaves-below (write nodes i y) (i + 1) i leaves (omega arith)
      ∙ write_self nodes i y
      ∙ same)
copy_leaves-at nodes i (suc k) (y ∷ leaves) x h =
    let next : i + suc k ≡ i + 1 + k = omega arith in
    rw next (copy_leaves-at (write nodes i y) (i + 1) k leaves x h)

-- A power of two, and one that is large enough.
next_power-pow : (fuel j n : ℕ) → (k : ℕ) × (next_power fuel (2 ^ j) n ≡ 2 ^ k)
unfolding next_power
next_power-pow zero j n = (j, refl)
next_power-pow (suc fuel) j n = elim (Bool-cases (leb n (2 ^ j))) [
  | inl e ↦ (j, rw e)
  | inr e ↦ let (k, p) = next_power-pow fuel (suc j) n in (k, rw (e, ← pow_double j) p)
]

next_power-le : (fuel p n : ℕ) → 1 ≤ p → n ≤ fuel + p → n ≤ next_power fuel p n
unfolding next_power
next_power-le zero p n h l = omega arith
next_power-le (suc fuel) p n h l = elim (Bool-cases (leb n p)) [
  | inl e ↦ rw e (leb→le n p e)
  | inr e ↦ rw e (next_power-le fuel (2 * p) n (omega arith) (omega arith))
]

pub next_power_of_two-pow : (n : ℕ) → (k : ℕ) × (next_power_of_two n ≡ 2 ^ k)
unfolding next_power_of_two
next_power_of_two-pow n = next_power-pow n 0 n

pub le-next_power_of_two : (n : ℕ) → n ≤ next_power_of_two n
unfolding next_power_of_two
le-next_power_of_two n = next_power-le n 1 n (omega arith) (omega arith)

module _ (c : Codec) where
  pub hash_nodes-above : (n : ℕ) (nodes : Nodes) (j : ℕ) → n ≤ j → hash_nodes c n nodes j ≡ nodes j
  unfolding hash_nodes
  hash_nodes-above zero nodes j h = refl
  hash_nodes-above (suc zero) nodes j h = refl
  hash_nodes-above (suc (suc n)) nodes j h =
      hash_nodes-above (suc n) _ j (omega arith) ∙ write_ne nodes (suc n) j _ (omega arith)

  -- After the loop each inner node is the hash of its children.
  pub hash_nodes-parent :
      (n : ℕ) (nodes : Nodes) (i : ℕ)
      → 1 ≤ i
      → i < n
      → hash_nodes c n nodes i
        ≡ c.sha256 (hash_nodes c n nodes (2 * i) ++ hash_nodes c n nodes (2 * i + 1))
  unfolding hash_nodes
  hash_nodes-parent zero nodes i h l = absurd (omega arith)
  hash_nodes-parent (suc zero) nodes i h l = absurd (omega arith)
  hash_nodes-parent (suc (suc n)) nodes i h l =
      let k = suc n in
      let x = c.sha256 (nodes (2 * k) ++ nodes (2 * k + 1)) in
      let next = write nodes k x in
      elim (Bool-cases (i == k)) [
        | inr e ↦ hash_nodes-parent (suc n) next i h (ground arith)
        | inl e ↦
            let here : i ≡ k = ground arith in
            rw here (
              rw
                (
                  hash_nodes-above k next k (omega arith),
                  hash_nodes-above k next (2 * k) (omega arith),
                  hash_nodes-above k next (2 * k + 1) (omega arith),
                  write_self nodes k x,
                  write_ne nodes k (2 * k) x (omega arith),
                  write_ne nodes k (2 * k + 1) x (omega arith),
                )
                refl)
      ]
