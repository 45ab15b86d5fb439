-- ===== src/Op/Guest.antt =====
-- crates/op-steel/src/optimism/mod.rs: the input of the guest on an OP chain.
use steel.Prelude.{Bytes}
use steel.Outcome.{Outcome}
use steel.Header.{EvmBlockHeader, EvmSpecId}
use steel.Platform.{Platform}
use steel.Commitment.{Commitment}
use steel.Config.Spec.{ChainSpec}
use steel.State.{StateDb}
use steel.Env.{EvmEnv}
use steel.Block
use steel.Block.{Receipts}
use steel.Input.{compose}
use steel.Game
use steel.Game.{OutputRootProof}
use steel.Op.Builder.{OpEvmInput, block, game}

-- `OpEvmInput::into_env`
unfoldable pub into_env :
    (p : Platform)
    → {H R S : Type 0} → EvmBlockHeader H
    → EvmSpecId S
    → Receipts R
    → (OutputRootProof → Bytes)
    → OpEvmInput H R
    → ChainSpec S
    → Outcome (EvmEnv StateDb S H Commitment)
unfolding compose Block.into_env Game.commit
into_env p ops ids rs abi_encode (block input) chain_spec =
    Block.into_env p ops ids rs input chain_spec
into_env p ops ids rs abi_encode (game input) chain_spec =
    compose p ops ids rs (Game.commit p.codec abi_encode) input chain_spec
