-- ===== src/Merkle/Proof.antt =====
-- `process_proof` and `verify`: the root that a leaf and the siblings on its path rebuild.
use steel.Prelude.{
  ℕ, ◌-◌, ◌/◌, ◌%◌, ◌^◌, B256, List, [], ◌∷◌, ◌++◌, length, ◌==◌, bytes_eq, not, if◌then◌else◌,
}
use steel.Outcome.{Outcome, ok, err, panic, invalid_proof, ◌>>=◌}
use steel.Codec.{Codec}
use steel.Merkle.Log.{ilog2}

module _ (c : Codec) where
  -- one level up: the sibling stands left of an odd index
  unfoldable pub parent : ℕ → B256 → B256 → B256
  parent index computed node =
      if not (index % 2 == 0) then c.sha256 (node ++ computed) else c.sha256 (computed ++ node)

  unfoldable pub climb : ℕ → B256 → List B256 → B256
  unfolding parent
  climb index computed [] = computed
  climb index computed (node ∷ branch) = climb (index / 2) (parent index computed node) branch

  unfoldable pub process_proof : B256 → List B256 → ℕ → Outcome B256
  unfolding climb ilog2
  process_proof leaf branch generalized_index =
      let depth = ilog2 generalized_index in
      if generalized_index == 0
      then panic "argument of integer logarithm must be positive"
      else if length branch == depth
      then ok (climb (generalized_index - 2 ^ depth) leaf branch)
      else err invalid_proof

  unfoldable pub verify : B256 → List B256 → ℕ → B256 → Outcome (Unit {0})
  unfolding process_proof
  verify leaf branch generalized_index root = do
    computed ← process_proof leaf branch generalized_index
    if bytes_eq computed root then ok tt else err invalid_proof
