-- ===== src/Input.antt =====
-- crates/steel/src/lib.rs, `ComposeInput` and `EvmInput`: the inputs of the guest, each a block input
-- with a way to commit to it.
pub mod Digest
use steel.Prelude.{B256}
use steel.Outcome.{Outcome, ok, ◌>>=◌}
use steel.Header.{EvmBlockHeader, EvmSpecId, Sealed}
use steel.Platform.{Platform}
use steel.Commitment.{Commitment}
use steel.Config.Spec.{ChainSpec}
use steel.State.{StateDb}
use steel.Env.{EvmEnv}
use steel.Block
use steel.Block.{BlockInput, Receipts}
use steel.Beacon
use steel.Beacon.{BeaconCommit, block_hash_leaf_index}
use steel.History.Commit
use steel.History.Commit.{HistoryCommit}
use steel.History.Eip2935
use steel.History.Eip2935.{HistoryInput}

pub record ComposeInput (H R C : Type 0) : Type 0 where
  pub input : BlockInput H R
  pub commit : C

module _ {H R C : Type 0} where
  unfoldable pub new : BlockInput H R → C → ComposeInput H R C
  new input commit = record { input = input; commit = commit }

  unfoldable pub into_parts : ComposeInput H R C → BlockInput H R × C
  into_parts self = (self.input, self.commit)

pub data EvmInput (H R : Type 0) : Type 0 where
  block : BlockInput H R → EvmInput H R
  beacon : ComposeInput H R BeaconCommit → EvmInput H R
  history : ComposeInput H R HistoryCommit → EvmInput H R
  eip_history : HistoryInput H R → EvmInput H R

module _ (p : Platform) {H R S : Type 0} (ops : EvmBlockHeader H) (ids : EvmSpecId S)
    (rs : Receipts R) where
  -- `ComposeInput::into_env`, given the `commit` of `BlockHeaderCommit`
  unfoldable pub compose :
      {C : Type 0}
      → (C → Sealed H → B256 → Outcome Commitment)
      → ComposeInput H R C
      → ChainSpec S
      → Outcome (EvmEnv StateDb S H Commitment)
  compose commit self chain_spec = do
    env ← Block.into_env p ops ids rs self.input chain_spec
    commitment ← commit self.commit env.header env.commit.config_id
    ok (record env { commit = commitment })

  unfoldable pub into_env : EvmInput H R → ChainSpec S → Outcome (EvmEnv StateDb S H Commitment)
  unfolding compose
  into_env (block input) chain_spec = Block.into_env p ops ids rs input chain_spec
  into_env (beacon input) chain_spec =
      compose (λ c header config_id. Beacon.commit p.codec block_hash_leaf_index c header config_id)
        input chain_spec
  into_env (history input) chain_spec =
      compose (λ c header config_id. Commit.commit p c header config_id) input chain_spec
  into_env (eip_history input) chain_spec = Eip2935.into_env p ops ids rs input chain_spec
