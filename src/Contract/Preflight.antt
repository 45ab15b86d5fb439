-- ===== src/Contract/Preflight.antt =====
-- crates/steel/src/contract.rs, `mod host`: calls of contracts on the host.
use steel.Prelude.{B256, Address, List}
use steel.Outcome.{Outcome, ok, err, message, ◌>>=◌}
use steel.Platform.{Platform}
use steel.Rpc.{Network, context}
use steel.Host.Provider.{ProviderDb, provider_db}
use steel.Host.Proof.{proof_db}
use steel.Host.Proof.Requests.{add_access_list}
use steel.Host.Env.{HostEvmEnv, spawn_with_db}
use steel.Contract
use steel.Contract.{EvmFactory, CallBuilder, CallResult, value, failed}

-- the error of a call gets the context of the call
unfoldable pub in_context : {A Halt : Type 0} → CallResult A Halt → Outcome A
in_context (value a) = ok a
in_context (failed e) = err (message "call failed")

module _ (p : Platform) {HR RR H S C : Type 0} where
  unfoldable pub prefetch_access_list :
      HostEvmEnv (ProviderDb HR RR) S H C
      → List (Address × List B256)
      → Outcome (HostEvmEnv (ProviderDb HR RR) S H C)
  unfolding add_access_list
  prefetch_access_list env access_list = do
    db ← add_access_list p.codec env.db access_list
    ok (record env { db = db })

module _ (p : Platform) {HR RR H R Tx S Halt A C : Type 0} (net : Network HR RR H R)
    (evm : EvmFactory Tx S H Halt) where
  -- `CallBuilder::call`: the database is moved into the task and back
  unfoldable pub call :
      HostEvmEnv (ProviderDb HR RR) S H C
      → CallBuilder Tx A
      → Outcome (A × HostEvmEnv (ProviderDb HR RR) S H C)
  unfolding Contract.call spawn_with_db in_context
  call env self = do
    (result, env') ←
        context
          (spawn_with_db env (λ db.
            Contract.call (proof_db (provider_db p.codec net)) db self.sol
              (evm.transact env.chain_id env.spec_id env.header.inner self.tx)))
          "call failed"
    a ← in_context result
    ok (a, env')

  -- `create_access_list` is the answer of the node to `eth_createAccessList` at the block
  unfoldable pub call_with_prefetch :
      (Tx → B256 → Outcome (List (Address × List B256)))
      → HostEvmEnv (ProviderDb HR RR) S H C
      → CallBuilder Tx A
      → Outcome (A × HostEvmEnv (ProviderDb HR RR) S H C)
  unfolding call prefetch_access_list
  call_with_prefetch create_access_list env self = do
    access_list ←
        context (create_access_list self.tx env.db.inner.block) "eth_createAccessList failed"
    env' ← context (prefetch_access_list p env access_list) "failed to add generated access list"
    call env' self
