-- ===== src/Merkle/Tree.antt =====
-- crates/steel/src/beacon/host/mod.rs, `MerkleTree`: a binary Merkle tree as a flat array. Position
-- 1 is the root, the children of k are 2 * k and 2 * k + 1, and position 0 is unused.
use steel.Prelude.{
  ℕ, zero, suc, ◌+◌, ◌-◌, ◌*◌, ◌/◌, ◌%◌, B256, List, [], ◌∷◌, ◌++◌, length, ltb, leb, ◌==◌,
  if◌then◌else◌,
}
use steel.Outcome.{Outcome, ok, ◌>>◌, assert}
use steel.Codec.{Codec}

abbrev pub zero_hash : B256
zero_hash =
    0 ∷ 0 ∷ 0 ∷ 0 ∷ 0 ∷ 0 ∷ 0 ∷ 0 ∷ 0 ∷ 0 ∷ 0 ∷ 0 ∷ 0 ∷ 0 ∷ 0 ∷ 0 ∷ 0 ∷ 0 ∷ 0 ∷ 0 ∷ 0 ∷ 0 ∷ 0 ∷ 0
    ∷ 0 ∷ 0 ∷ 0 ∷ 0 ∷ 0 ∷ 0 ∷ 0 ∷ 0 ∷ []

-- `usize::next_power_of_two`, which is 1 for 0; doubling `n` times is more than enough
unfoldable pub next_power : ℕ → ℕ → ℕ → ℕ
next_power zero p n = p
next_power (suc fuel) p n = let rest = next_power fuel (2 * p) n in if leb n p then p else rest

unfoldable pub next_power_of_two : ℕ → ℕ
unfolding next_power
next_power_of_two n = next_power n 1 n

-- The array as a function of the index. The indices that the code uses are in range.
abbrev pub Nodes : Type 0
Nodes = ℕ → B256

unfoldable pub write : Nodes → ℕ → B256 → Nodes
write nodes i x j = if i == j then x else nodes j

-- `copy_from_slice(leaves)` from index `i` on
unfoldable pub copy_leaves : Nodes → ℕ → List B256 → Nodes
unfolding write
copy_leaves nodes i [] = nodes
copy_leaves nodes i (x ∷ leaves) = copy_leaves (write nodes i x) (i + 1) leaves

pub record MerkleTree : Type 0 where
  pub nodes : Nodes
  pub len : ℕ

module _ (c : Codec) where
  -- the loop `for i in (1..num_leaves).rev()`, at the index `i + 1` of the rounds that are left
  unfoldable pub hash_nodes : ℕ → Nodes → Nodes
  unfolding write
  hash_nodes zero nodes = nodes
  hash_nodes (suc zero) nodes = nodes
  hash_nodes (suc (suc n)) nodes =
      let i = suc n in
      hash_nodes (suc n) (write nodes i (c.sha256 (nodes (2 * i) ++ nodes (2 * i + 1))))

  unfoldable pub new : List B256 → MerkleTree
  unfolding hash_nodes copy_leaves next_power_of_two
  new leaves =
      let num_leaves = next_power_of_two (length leaves) in
      let padded = copy_leaves (λ j. zero_hash) num_leaves leaves in
      record { nodes = hash_nodes num_leaves padded; len = 2 * num_leaves }

unfoldable pub root : MerkleTree → B256
root tree = tree.nodes 1

unfoldable pub num_leaves : MerkleTree → ℕ
num_leaves tree = tree.len / 2

-- `gindex ^ 1`
unfoldable pub sibling : ℕ → ℕ
sibling g = if g % 2 == 0 then g + 1 else g - 1

-- `while gindex > 1`; the index itself is more than enough rounds
unfoldable pub siblings : MerkleTree → ℕ → ℕ → List B256
unfolding sibling
siblings tree zero g = []
siblings tree (suc fuel) g =
    let rest = tree.nodes (sibling g) ∷ siblings tree fuel (g / 2) in if ltb 1 g then rest else []

unfoldable pub proof : MerkleTree → ℕ → Outcome (List B256)
unfolding siblings num_leaves
proof tree leaf_index = do
  assert (ltb leaf_index (num_leaves tree)) "assertion failed: leaf_index < self.num_leaves()"
  let g = num_leaves tree + leaf_index
  ok (siblings tree g g)
