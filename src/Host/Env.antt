-- ===== src/Host/Env.antt =====
-- crates/steel/src/host/mod.rs: the environment on the host.
use steel.Prelude.{B256, ◌==◌, bytes_eq}
use steel.Outcome.{Outcome, ok, expect, guard, message, ◌>>=◌, ◌>>◌}
use steel.Codec.{Codec}
use steel.Header.{EvmBlockHeader, EvmSpecId, Sealed}
use steel.Commitment.{Commitment}
use steel.Config.Spec.{ChainSpec, active_fork}
use steel.Config.Digest.{digest}
use steel.Env.{EvmEnv}
use steel.Host.Proof.{ProofDb}
use steel.Host.Proof.Merge
use steel.Host.Input.{HostCommit}

-- `HostEvmEnv<D, F, C>`
abbrev pub HostEvmEnv : Type 0 → Type 0 → Type 0 → Type 0 → Type 0
HostEvmEnv D S H C = EvmEnv (ProofDb D) S H (HostCommit C)

-- The database is moved into the task and back again.
unfoldable pub spawn_with_db :
    {D S H C R : Type 0} → EvmEnv D S H C → (D → Outcome (R × D)) → Outcome (R × EvmEnv D S H C)
spawn_with_db env f = do (result, db) ← f env.db; ok (result, record env { db = db })

module _ {D S H C : Type 0} where
  unfoldable pub config_id : HostEvmEnv D S H C → B256
  config_id env = env.commit.config_id

  unfoldable pub with_chain_spec :
      Codec
      → EvmBlockHeader H
      → EvmSpecId S
      → HostEvmEnv D S H C
      → ChainSpec S
      → Outcome (HostEvmEnv D S H C)
  with_chain_spec c ops ids env chain_spec = do
    spec_id ←
        expect
          (active_fork chain_spec (ops.number env.header.inner) (ops.timestamp env.header.inner))
          "called `Option::unwrap()` on a `None` value"
    id ← digest c ids chain_spec
    ok (record env {
      chain_id = chain_spec.chain_id;
      spec_id = spec_id;
      commit = record env.commit { config_id = id };
    })

  -- the second environment's commitment is dropped
  unfoldable pub merge :
      EvmSpecId S → HostEvmEnv D S H C → HostEvmEnv D S H C → Outcome (HostEvmEnv D S H C)
  unfolding Merge.merge
  merge ids self other = do
    guard (self.chain_id == other.chain_id) (message "configuration mismatch")
    guard (ids.rank self.spec_id == ids.rank other.spec_id) (message "configuration mismatch")
    guard (bytes_eq self.header.seal other.header.seal) (message "execution header mismatch")
    db ← Merge.merge self.db other.db
    ok (record self { db = db })

  -- the commitment, by the `commit` of `BlockHeaderCommit`
  unfoldable pub commitment :
      (C → Sealed H → B256 → Outcome Commitment) → HostEvmEnv D S H C → Outcome Commitment
  commitment commit env = commit env.commit.inner env.header env.commit.config_id
