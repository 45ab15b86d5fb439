-- ===== src/Op/Chains.antt =====
-- crates/op-steel/src/optimism: the forks of the OP stack, and the chains that are known.
use steel.Prelude.{ℕ, Bool, List, [], ◌∷◌, leb}
use steel.Header.{EvmSpecId}
use steel.Config.Spec
use steel.Config.Spec.{ForkCondition, block, timestamp, ChainSpec}
use steel.Config.Fork.{IsAscending, from-IsAscending}

-- What the crate uses of op-revm's `OpSpecId`: its order, its numbers and its forks.
pub record OpHardforks (S : Type 0) : Type 0 where
  pub rank : S → ℕ
  pub as_u32 : S → ℕ
  pub bedrock : S
  pub regolith : S
  pub canyon : S
  pub ecotone : S
  pub fjord : S
  pub granite : S
  pub holocene : S
  pub isthmus : S
  pub jovian : S
  pub karst : S

module _ {S : Type 0} (h : OpHardforks S) where
  unfoldable pub has_eip4788 : S → Bool
  has_eip4788 s = leb (h.rank h.ecotone) (h.rank s)

  unfoldable pub has_eip2935 : S → Bool
  has_eip2935 s = leb (h.rank h.isthmus) (h.rank s)

  -- `impl EvmSpecId for OpSpecId`
  unfoldable pub spec_ids : EvmSpecId S
  unfolding has_eip4788 has_eip2935
  spec_ids = record {
    rank = h.rank;
    has_eip4788 = has_eip4788;
    has_eip2935 = has_eip2935;
    to_u32 = h.as_u32;
  }

  -- Base's name of the fork Karst
  abbrev pub azul : S
  azul = h.karst

  -- a chain by its entries
  unfoldable pub forks : ℕ → List (S × ForkCondition) → ChainSpec S
  unfolding spec_ids Spec.from
  forks id entries = record { chain_id = id; forks = Spec.from spec_ids entries }

  abbrev op_mainnet_forks : List (S × ForkCondition)
  op_mainnet_forks =
      (h.bedrock, block 105235063)
      ∷ (h.regolith, timestamp 0)
      ∷ (h.canyon, timestamp 1704992401)
      ∷ (h.ecotone, timestamp 1710374401)
      ∷ (h.fjord, timestamp 1720627201)
      ∷ (h.granite, timestamp 1726070401)
      ∷ (h.holocene, timestamp 1736445601)
      ∷ (h.isthmus, timestamp 1746806401)
      ∷ (h.jovian, timestamp 1764691201)
      ∷ []

  unfoldable pub op_mainnet : ChainSpec S
  unfolding forks
  op_mainnet = forks 10 op_mainnet_forks

  abbrev op_sepolia_forks : List (S × ForkCondition)
  op_sepolia_forks =
      (h.bedrock, block 0)
      ∷ (h.regolith, timestamp 0)
      ∷ (h.canyon, timestamp 1699981200)
      ∷ (h.ecotone, timestamp 1708534800)
      ∷ (h.fjord, timestamp 1716998400)
      ∷ (h.granite, timestamp 1723478400)
      ∷ (h.holocene, timestamp 1732633200)
      ∷ (h.isthmus, timestamp 1744905600)
      ∷ (h.jovian, timestamp 1763568001)
      ∷ []

  unfoldable pub op_sepolia : ChainSpec S
  unfolding forks
  op_sepolia = forks 11155420 op_sepolia_forks

  abbrev base_mainnet_forks : List (S × ForkCondition)
  base_mainnet_forks =
      (h.bedrock, block 0)
      ∷ (h.regolith, timestamp 0)
      ∷ (h.canyon, timestamp 1704992401)
      ∷ (h.ecotone, timestamp 1710374401)
      ∷ (h.fjord, timestamp 1720627201)
      ∷ (h.granite, timestamp 1726070401)
      ∷ (h.holocene, timestamp 1736445601)
      ∷ (h.isthmus, timestamp 1746806401)
      ∷ (h.jovian, timestamp 1764691201)
      ∷ (azul, timestamp 1779386400)
      ∷ []

  unfoldable pub base_mainnet : ChainSpec S
  unfolding forks
  base_mainnet = forks 8453 base_mainnet_forks

  abbrev base_sepolia_forks : List (S × ForkCondition)
  base_sepolia_forks =
      (h.bedrock, block 0)
      ∷ (h.regolith, timestamp 0)
      ∷ (h.canyon, timestamp 1699981200)
      ∷ (h.ecotone, timestamp 1708534800)
      ∷ (h.fjord, timestamp 1716998400)
      ∷ (h.granite, timestamp 1723478400)
      ∷ (h.holocene, timestamp 1732633200)
      ∷ (h.isthmus, timestamp 1744905600)
      ∷ (h.jovian, timestamp 1763568001)
      ∷ (azul, timestamp 1776708000)
      ∷ []

  unfoldable pub base_sepolia : ChainSpec S
  unfolding forks
  base_sepolia = forks 84532 base_sepolia_forks

  -- The four chains have the forks in ascending order, as they are looked up.
  pub chains-IsAscending :
      IsAscending spec_ids op_mainnet.forks
      × IsAscending spec_ids op_sepolia.forks
      × IsAscending spec_ids base_mainnet.forks
      × IsAscending spec_ids base_sepolia.forks
  unfolding op_mainnet op_sepolia base_mainnet base_sepolia
  chains-IsAscending = (
    from-IsAscending spec_ids op_mainnet_forks,
    from-IsAscending spec_ids op_sepolia_forks,
    from-IsAscending spec_ids base_mainnet_forks,
    from-IsAscending spec_ids base_sepolia_forks,
  )
