-- ===== src/Env.antt =====
-- crates/steel/src/lib.rs: `EvmEnv`, the environment of the calls, and `ComposeInput`.
use steel.Prelude.{ℕ}
use steel.Outcome.{Outcome, ok, expect, ◌>>=◌}
use steel.Header.{EvmBlockHeader, Sealed}
use steel.Config.Spec.{ChainSpec, active_fork}

pub record EvmEnv (D S H C : Type 0) : Type 0 where
  -- the host takes the database out while a call runs; in the guest it is always there
  pub db : D
  pub chain_id : ℕ
  pub spec_id : S
  pub header : Sealed H
  pub commit : C

module _ {D S H C : Type 0} where
  unfoldable pub new : D → ℕ → S → Sealed H → C → EvmEnv D S H C
  new db chain_id spec_id header commit = record {
    db = db;
    chain_id = chain_id;
    spec_id = spec_id;
    header = header;
    commit = commit;
  }

  unfoldable pub from_chain_spec :
      EvmBlockHeader H → D → ChainSpec S → Sealed H → C → Outcome (EvmEnv D S H C)
  unfolding new
  from_chain_spec ops db chain_spec header commit = do
    spec_id ←
        expect (active_fork chain_spec (ops.number header.inner) (ops.timestamp header.inner))
          "called `Result::unwrap()` on an `Err` value"
    ok (new db chain_spec.chain_id spec_id header commit)
