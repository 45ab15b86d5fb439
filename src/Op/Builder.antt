-- ===== src/Op/Builder.antt =====
-- crates/op-steel/src/optimism/host.rs: the environment of an OP chain on the host. The types of the
-- provider and of the game are `Unit` while they are not given.
pub mod Laws
use steel.Prelude.{ℕ, ◌^◌, Bytes, B256, Option, none, some, List, ltb, bytes_eq}
use steel.Outcome.{Outcome, ok, panic, assert, ◌>>=◌, ◌>>◌}
use steel.Codec.{Codec}
use steel.Header.{EvmBlockHeader, EvmSpecId, Sealed}
use steel.Platform.{Platform}
use steel.Commitment.{Commitment}
use steel.Config.Spec.{ChainSpec}
use steel.Env.{EvmEnv}
use steel.Block
use steel.Block.{BlockInput}
use steel.Input
use steel.Input.{ComposeInput, EvmInput}
use steel.Game
use steel.Game.{DisputeGameCommit, OutputRootProof}
use steel.Rpc.{Network, Provider, context}
use steel.Host.Provider.{ProviderDb}
use steel.Host.BlockId.{BlockNumberOrTag}
use steel.Host.Input.{into_block_input}
use steel.Host.Env
use steel.Host.Env.{HostEvmEnv}
use steel.Host.Builder
use steel.Host.Builder.{EvmEnvBuilder, Nothing}
use steel.Op.Portal
use steel.Op.Portal.{Portal, DisputeGameIndex, dispute_game, latest}

-- `OpEvmEnv`: the inner environment has a block commitment
pub record OpEvmEnv (D S H C : Type 0) : Type 0 where
  pub inner : HostEvmEnv D S H Nothing
  pub commit : C

pub record DisputeGameConfig : Type 0 where
  pub portal : Portal
  pub index : DisputeGameIndex

-- the stage is told by the type of the provider
pub record OpEvmEnvBuilder (P S G : Type 0) : Type 0 where
  pub inner : EvmEnvBuilder P S Nothing
  pub l2_provider : P
  pub dispute_game_config : G

-- `OpEvmInput`
pub data OpEvmInput (H R : Type 0) : Type 0 where
  block : BlockInput H R → OpEvmInput H R
  game : ComposeInput H R DisputeGameCommit → OpEvmInput H R

abbrev pub builder : OpEvmEnvBuilder Nothing Nothing Nothing
builder = record { inner = Builder.builder; l2_provider = tt; dispute_game_config = tt }

unfoldable pub eip1186_proof_chunk_size :
    {P S G : Type 0} → OpEvmEnvBuilder P S G → ℕ → Outcome (OpEvmEnvBuilder P S G)
unfolding Builder.eip1186_proof_chunk_size
eip1186_proof_chunk_size self chunk_size = do
  inner ← Builder.eip1186_proof_chunk_size self.inner chunk_size
  ok (record self { inner = inner })

unfoldable pub chain_spec :
    {P S G : Type 0} → OpEvmEnvBuilder P Nothing G → S → OpEvmEnvBuilder P S G
unfolding Builder.chain_spec
chain_spec self spec = record {
  inner = Builder.chain_spec self.inner spec;
  l2_provider = self.l2_provider;
  dispute_game_config = self.dispute_game_config;
}

unfoldable pub with_dispute_game :
    {S : Type 0}
    → OpEvmEnvBuilder Nothing S Nothing
    → Portal
    → OpEvmEnvBuilder Nothing S DisputeGameConfig
with_dispute_game self portal = record {
  inner = self.inner;
  l2_provider = self.l2_provider;
  dispute_game_config = record { portal = portal; index = latest };
}

-- A new inner builder takes the place of the old one.
unfoldable pub provider :
    {P G : Type 0} → OpEvmEnvBuilder Nothing Nothing G → P → OpEvmEnvBuilder P Nothing G
unfolding Builder.provider
provider self node = record {
  inner = Builder.provider Builder.builder node;
  l2_provider = node;
  dispute_game_config = self.dispute_game_config;
}

module _ {P S : Type 0} where
  unfoldable pub block_number : OpEvmEnvBuilder P S Nothing → ℕ → OpEvmEnvBuilder P S Nothing
  unfolding Builder.block_number
  block_number self number = record self { inner = Builder.block_number self.inner number }

  unfoldable pub block_number_or_tag :
      OpEvmEnvBuilder P S Nothing → BlockNumberOrTag → OpEvmEnvBuilder P S Nothing
  unfolding Builder.block_number_or_tag
  block_number_or_tag self tag = record self { inner = Builder.block_number_or_tag self.inner tag }

  unfoldable pub game_index :
      OpEvmEnvBuilder P S DisputeGameConfig
      → DisputeGameIndex
      → OpEvmEnvBuilder P S DisputeGameConfig
  game_index self index = record self {
    dispute_game_config = record self.dispute_game_config { index = index };
  }

module _ {HR RR H R S : Type 0} (p : Platform) (fuel : ℕ) (net : Network HR RR H R)
    (ops : EvmBlockHeader H) (ids : EvmSpecId S) where
  unfoldable pub build :
      OpEvmEnvBuilder (Provider HR RR) (ChainSpec S) Nothing
      → Outcome (OpEvmEnv (ProviderDb HR RR) S H Nothing)
  unfolding Builder.build
  build self = do
    inner ← Builder.build net ops p ids self.inner
    ok (record { inner = inner; commit = tt })

  -- `game.index.to()` panics where the index does not fit in 64 bits
  unfoldable pub build_game :
      (OutputRootProof → Bytes)
      → (Bytes → Option ℕ)
      → OpEvmEnvBuilder (Provider HR RR) (ChainSpec S) DisputeGameConfig
      → Outcome (OpEvmEnv (ProviderDb HR RR) S H DisputeGameCommit)
  unfolding Builder.build Builder.block_number dispute_game Game.new
  build_game abi_encode abi_decode self = do
    chosen ←
        context
          (dispute_game net self.l2_provider p.codec abi_encode abi_decode
            self.dispute_game_config.portal self.dispute_game_config.index)
          "failed to get dispute game from portal"
    let proof = chosen.output_root_proof
    env ← Builder.build net ops p ids (Builder.block_number self.inner chosen.l2_block_number)
    assert (bytes_eq proof.latest_blockhash (ops.hash_slow env.header.inner))
        "assertion `left == right` failed"
    assert (ltb chosen.index (2 ^ 64)) "Uint conversion error"
    ok (record { inner = env; commit = Game.new chosen.index proof })

  -- the inner environment makes a block input
  unfoldable pub only_block : EvmInput H R → Outcome (BlockInput H R)
  only_block (Input.block input) = ok input
  only_block (Input.beacon input) = panic "internal error: entered unreachable code"
  only_block (Input.history input) = panic "internal error: entered unreachable code"
  only_block (Input.eip_history input) = panic "internal error: entered unreachable code"

  unfoldable pub into_input : OpEvmEnv (ProviderDb HR RR) S H Nothing → Outcome (OpEvmInput H R)
  unfolding into_block_input only_block
  into_input self = do
    outer ← into_block_input p fuel net ops self.inner
    input ← only_block outer
    ok (block input)

  unfoldable pub into_game_input :
      OpEvmEnv (ProviderDb HR RR) S H DisputeGameCommit → Outcome (OpEvmInput H R)
  unfolding into_block_input only_block Input.new
  into_game_input self = do
    outer ← into_block_input p fuel net ops self.inner
    input ← only_block outer
    ok (game (Input.new input self.commit))

  -- the configuration of the inner commitment, under the outer one
  unfoldable pub commitment :
      {C : Type 0}
      → (C → Sealed H → B256 → Outcome Commitment)
      → OpEvmEnv (ProviderDb HR RR) S H C
      → Outcome Commitment
  unfolding Env.commitment Block.commit
  commitment commit self = do
    inner ← Env.commitment (λ unit header id. ok (Block.commit ops header id)) self.inner
    commit self.commit self.inner.header inner.config_id
