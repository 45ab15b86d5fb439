-- ===== src/Ethereum/Chains.antt =====
-- The known chains are well formed.
use steel.Prelude.{
  ℕ, ◌≡◌, refl, subst, Option, none, some, List, ◌==◌, Bool-cases, arith, if◌then◌else◌, inl, inr,
}
use steel.Config.Spec.{ForkCondition, ChainSpec}
use steel.Config.Fork.{IsAscending, from-IsAscending}
use steel.Ethereum.{
  Hardforks, spec_ids, define, eth_mainnet, eth_mainnet_forks, eth_sepolia, eth_sepolia_forks,
  eth_hoodi, eth_hoodi_forks, steel_test_prague, steel_test_prague_forks, steel_test_osaka,
  steel_test_osaka_forks, from_chain_id,
}

module _ {S : Type 0} (h : Hardforks S) where
  abbrev pub IsKnown : ℕ → ChainSpec S → Type 0
  IsKnown id spec = (spec.chain_id ≡ id) × IsAscending (spec_ids h) spec.forks

  define-IsKnown : (id : ℕ) (forks : List (S × ForkCondition)) → IsKnown id (define h id forks)
  unfolding define
  define-IsKnown id forks = (refl, from-IsAscending (spec_ids h) forks)

  choose :
      (id known : ℕ) (spec found : ChainSpec S) (rest : Option (ChainSpec S))
      → IsKnown known spec
      → (rest ≡ some found → IsKnown id found)
      → (if id == known then some spec else rest) ≡ some found
      → IsKnown id found
  choose id known spec found rest good later e = elim (Bool-cases (id == known)) [
    | inl same ↦
        let id_eq : known ≡ id = ground (arith, same) in
        let spec_eq : spec ≡ found = cc (rw same at e) in
        subst (IsKnown id) spec_eq (subst (λ i. IsKnown i spec) id_eq good)
    | inr other ↦ later (rw other at e)
  ]

  -- The specification that is found for a chain ID is that chain's, and its forks are in ascending
  -- order, as they are looked up.
  pub from_chain_id-IsKnown :
      (id : ℕ) (spec : ChainSpec S) → from_chain_id h id ≡ some spec → IsKnown id spec
  unfolding from_chain_id eth_mainnet eth_sepolia eth_hoodi steel_test_prague steel_test_osaka
  from_chain_id-IsKnown id spec e =
      choose id 1 (eth_mainnet h) spec _ (define-IsKnown 1 (eth_mainnet_forks h))
        (choose id 11155111 (eth_sepolia h) spec _ (define-IsKnown 11155111 (eth_sepolia_forks h)) (
          choose id 560048 (eth_hoodi h) spec _ (define-IsKnown 560048 (eth_hoodi_forks h)) (
            choose id 5733100018 (steel_test_prague h) spec _
              (define-IsKnown 5733100018 (steel_test_prague_forks h))
              (choose id 5733100019 (steel_test_osaka h) spec none
                (define-IsKnown 5733100019 (steel_test_osaka_forks h)) (λ n. absurd (cc n))))))
        e
