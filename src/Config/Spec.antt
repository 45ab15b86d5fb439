-- ===== src/Config/Spec.antt =====
-- `ForkCondition`, `ChainSpec` and the fork that is active in a block.
use steel.Prelude.{ℕ, Bool, List, [], ◌∷◌, ltb, leb, ◌==◌, if◌then◌else◌}
use mathlib.Core.List.{reverse}
use steel.Outcome.{Outcome, ok, err, message}
use steel.Header.{EvmSpecId}

pub data ForkCondition : Type 0 where
  block : ℕ → ForkCondition
  timestamp : ℕ → ForkCondition

unfoldable pub active : ForkCondition → ℕ → ℕ → Bool
active (block n) block_number ts = leb n block_number
active (timestamp t) block_number ts = leb t ts

-- The `BTreeMap` of the forks is the list of its entries in the order of the keys.
pub record ChainSpec (S : Type 0) : Type 0 where
  pub chain_id : ℕ
  pub forks : List (S × ForkCondition)

module _ {S : Type 0} (ids : EvmSpecId S) where
  -- `BTreeMap::insert`
  unfoldable pub insert : S → ForkCondition → List (S × ForkCondition) → List (S × ForkCondition)
  insert s f [] = (s, f) ∷ []
  insert s f ((t, g) ∷ forks) =
      let rest = insert s f forks in
      if ltb (ids.rank s) (ids.rank t)
      then (s, f) ∷ (t, g) ∷ forks
      else if ids.rank s == ids.rank t
      then (s, f) ∷ forks
      else (t, g) ∷ rest

  unfoldable pub insert_all :
      List (S × ForkCondition) → List (S × ForkCondition) → List (S × ForkCondition)
  unfolding insert
  insert_all [] forks = forks
  insert_all ((s, f) ∷ entries) forks = insert_all entries (insert s f forks)

  -- `BTreeMap::from`: a later entry replaces one with the same key
  unfoldable pub from : List (S × ForkCondition) → List (S × ForkCondition)
  unfolding insert_all
  from entries = insert_all entries []

module _ {S : Type 0} where
  unfoldable pub new_single : ℕ → S → ChainSpec S
  new_single chain_id spec_id = record { chain_id = chain_id; forks = (spec_id, block 0) ∷ [] }

  -- `for (spec_id, fork) in self.forks.iter().rev()`
  unfoldable pub find_active : List (S × ForkCondition) → ℕ → ℕ → Outcome S
  unfolding active
  find_active [] number ts = err (message "no supported fork for block")
  find_active ((s, fork) ∷ forks) number ts =
      let rest = find_active forks number ts in if active fork number ts then ok s else rest

  unfoldable pub active_fork : ChainSpec S → ℕ → ℕ → Outcome S
  unfolding find_active
  active_fork spec number ts = find_active (reverse spec.forks) number ts
