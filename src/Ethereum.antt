-- ===== src/Ethereum.antt =====
-- crates/steel/src/ethereum.rs: the chains that are known, and the features of their forks.
pub mod Chains
use steel.Prelude.{ℕ, Bool, Option, none, some, List, [], ◌∷◌, leb, ◌==◌, if◌then◌else◌}
use steel.Header.{EvmSpecId}
use steel.Config.Spec
use steel.Config.Spec.{ForkCondition, block, timestamp, ChainSpec}

-- What the crate uses of revm's `SpecId`: its order, its numbers and five of its forks.
pub record Hardforks (S : Type 0) : Type 0 where
  pub rank : S → ℕ
  pub as_u32 : S → ℕ
  pub merge : S
  pub shanghai : S
  pub cancun : S
  pub prague : S
  pub osaka : S

module _ {S : Type 0} (h : Hardforks S) where
  unfoldable pub has_eip4788 : S → Bool
  has_eip4788 s = leb (h.rank h.cancun) (h.rank s)

  unfoldable pub has_eip2935 : S → Bool
  has_eip2935 s = leb (h.rank h.prague) (h.rank s)

  -- `impl EvmSpecId for SpecId`
  unfoldable pub spec_ids : EvmSpecId S
  unfolding has_eip4788 has_eip2935
  spec_ids = record {
    rank = h.rank;
    has_eip4788 = has_eip4788;
    has_eip2935 = has_eip2935;
    to_u32 = h.as_u32;
  }

  -- `define_chain_specs!`
  unfoldable pub define : ℕ → List (S × ForkCondition) → ChainSpec S
  unfolding spec_ids Spec.from
  define id forks = record { chain_id = id; forks = Spec.from spec_ids forks }

  abbrev pub eth_mainnet_forks : List (S × ForkCondition)
  eth_mainnet_forks =
      (h.merge, block 15537394)
      ∷ (h.shanghai, timestamp 1681338455)
      ∷ (h.cancun, timestamp 1710338135)
      ∷ (h.prague, timestamp 1746612311)
      ∷ (h.osaka, timestamp 1764798551)
      ∷ []

  unfoldable pub eth_mainnet : ChainSpec S
  unfolding define
  eth_mainnet = define 1 eth_mainnet_forks

  abbrev pub eth_sepolia_forks : List (S × ForkCondition)
  eth_sepolia_forks =
      (h.merge, block 1735371)
      ∷ (h.shanghai, timestamp 1677557088)
      ∷ (h.cancun, timestamp 1706655072)
      ∷ (h.prague, timestamp 1741159776)
      ∷ (h.osaka, timestamp 1760427360)
      ∷ []

  unfoldable pub eth_sepolia : ChainSpec S
  unfolding define
  eth_sepolia = define 11155111 eth_sepolia_forks

  abbrev pub eth_hoodi_forks : List (S × ForkCondition)
  eth_hoodi_forks =
      (h.cancun, block 0) ∷ (h.prague, timestamp 1742999832) ∷ (h.osaka, timestamp 1761677592) ∷ []

  unfoldable pub eth_hoodi : ChainSpec S
  unfolding define
  eth_hoodi = define 560048 eth_hoodi_forks

  abbrev pub steel_test_prague_forks : List (S × ForkCondition)
  steel_test_prague_forks = (h.prague, block 0) ∷ []

  unfoldable pub steel_test_prague : ChainSpec S
  unfolding define
  steel_test_prague = define 5733100018 steel_test_prague_forks

  abbrev pub steel_test_osaka_forks : List (S × ForkCondition)
  steel_test_osaka_forks = (h.osaka, block 0) ∷ []

  unfoldable pub steel_test_osaka : ChainSpec S
  unfolding define
  steel_test_osaka = define 5733100019 steel_test_osaka_forks

  unfoldable pub from_chain_id : ℕ → Option (ChainSpec S)
  unfolding eth_mainnet eth_sepolia eth_hoodi steel_test_prague steel_test_osaka
  from_chain_id id =
      if id == 1
      then some eth_mainnet
      else if id == 11155111
      then some eth_sepolia
      else if id == 560048
      then some eth_hoodi
      else if id == 5733100018
      then some steel_test_prague
      else if id == 5733100019
      then some steel_test_osaka
      else none
