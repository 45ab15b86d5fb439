-- ===== src/Sync.antt =====
-- crates/steel/src/sync.rs: one interface to calls on the host and in the guest.
use steel.Prelude.{Address}
use steel.Outcome.{Outcome, ok, err, expect, message, ◌>>=◌}
use steel.Header.{EvmBlockHeader, Sealed}
use steel.Platform.{Platform}
use steel.Commitment.{Commitment}
use steel.State.{StateDb}
use steel.Env.{EvmEnv}
use steel.Rpc.{Network}
use steel.Host.Provider.{ProviderDb}
use steel.Host.Env.{HostEvmEnv}
use steel.Contract
use steel.Contract.{EvmFactory, SolCall, CallResult, value, failed, call_builder}
use steel.Contract.Preflight

-- `?` on a `CallError`
unfoldable pub or_error : {A Halt : Type 0} → CallResult A Halt → Outcome A
or_error (value a) = ok a
or_error (failed e) = err (message "call failed")

-- `SyncEnv::call`, by `try_call`
unfoldable pub call : {A : Type 0} → Outcome A → Outcome A
call tried = expect tried "Executing call failed"

-- `SyncEnv::header`
unfoldable pub header : {D S H C : Type 0} → EvmEnv D S H C → Sealed H
header env = env.header

module _ (p : Platform) {Tx S H Halt A : Type 0} (evm : EvmFactory Tx S H Halt) where
  -- `SyncEnv::try_call` of the guest
  unfoldable pub guest_try_call :
      EvmBlockHeader H → EvmEnv StateDb S H Commitment → Address → SolCall A → Outcome A
  unfolding Contract.try_call or_error call_builder
  guest_try_call ops env address sol = do
    result ← Contract.try_call p ops evm env (call_builder evm address sol)
    or_error result

  -- `SyncEnv::try_call` of the host
  unfoldable pub host_try_call :
      {HR RR R C : Type 0}
      → Network HR RR H R
      → HostEvmEnv (ProviderDb HR RR) S H C
      → Address
      → SolCall A
      → Outcome (A × HostEvmEnv (ProviderDb HR RR) S H C)
  unfolding Preflight.call call_builder
  host_try_call net env address sol = Preflight.call p net evm env (call_builder evm address sol)
