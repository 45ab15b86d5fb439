-- ===== src/Host/Queries.antt =====
-- crates/steel/src/account.rs, event.rs and verifier.rs on the host: the queries that record what the
-- guest will ask for.
use steel.Prelude.{ℕ, B256, Address, Option, none, some, List, bytes_eq, ◌&&◌, if◌then◌else◌}
use steel.Outcome.{Outcome, ok, panic, guard, message, ◌>>=◌, ◌>>◌}
use steel.Header.{EvmBlockHeader, EvmSpecId}
use steel.Platform.{Platform, StateAccount, Log}
use steel.Commitment.{CommitmentVersion, block, beacon, consensus, n, Commitment, decode_id}
use steel.Verifier.{validate_history_window}
use steel.History.HistoryStorage
use steel.State.{or_default}
use steel.Account
use steel.Account.{Account, AccountInfo, is_none}
use steel.Event
use steel.Event.{Event, SolEvent}
use steel.Rpc.{Network, context}
use steel.Host.Provider.{ProviderDb, provider_db}
use steel.Host.Proof
use steel.Host.Proof.{ProofDb}
use steel.Host.Proof.Requests.{state_account}
use steel.Host.Env.{HostEvmEnv, spawn_with_db}

-- `Account::preflight`
unfoldable pub account_preflight : Address → Account
unfolding Account.new
account_preflight address = Account.new address

module _ (p : Platform) {HR RR H R S C : Type 0} (net : Network HR RR H R) where
  -- the code of an account, whose hash must be the one that the proof tells
  unfoldable pub fetch_code :
      HostEvmEnv (ProviderDb HR RR) S H C
      → Address
      → StateAccount
      → AccountInfo
      → Outcome (AccountInfo × HostEvmEnv (ProviderDb HR RR) S H C)
  unfolding spawn_with_db Proof.basic Proof.code_by_hash
  fetch_code env address account info = do
    (found, env1) ←
        context (spawn_with_db env (λ db. Proof.basic (provider_db p.codec net) db address))
          "failed to get basic account information"
    guard (bytes_eq (or_default p.default_info found).code_hash account.code_hash)
        (message "code_hash mismatch")
    (code, env2) ←
        context
          (spawn_with_db env1
            (λ db. Proof.code_by_hash (provider_db p.codec net) db info.code_hash))
          "failed to get account code by its hash"
    ok (record info { code = some code }, env2)

  -- `Account::info`
  unfoldable pub info :
      Account
      → HostEvmEnv (ProviderDb HR RR) S H C
      → Outcome (AccountInfo × HostEvmEnv (ProviderDb HR RR) S H C)
  unfolding fetch_code state_account Account.from is_none
  info self env = do
    (account, db) ←
        context (state_account p.codec env.db self.address)
          "failed to get state account information"
    let found = Account.from account
    let env1 = record env { db = db }
    if self.code && is_none found.code
        then fetch_code env1 self.address account found
        else ok (found, env1)

  -- `Event::preflight`, and `Event::query` up to the decoding of the logs
  unfoldable pub event_preflight : SolEvent → HostEvmEnv (ProviderDb HR RR) S H C → Outcome Event
  unfolding Event.new
  event_preflight event env = Event.new event env.header

  unfoldable pub query :
      Event
      → HostEvmEnv (ProviderDb HR RR) S H C
      → Outcome (List Log × HostEvmEnv (ProviderDb HR RR) S H C)
  unfolding spawn_with_db Proof.logs
  query self env =
      context (spawn_with_db env (λ db. Proof.logs (provider_db p.codec net) db self.filter))
        "querying logs failed"

  -- What the run of a contract call by revm gives: `BeaconRootsContract::call` and
  -- `HistoryStorageContract::call` of the host, with the environment after it.
  module _
      (beacon_roots_call history_storage_call : HostEvmEnv (ProviderDb HR RR) S H C
        → ℕ
        → Outcome (B256 × HostEvmEnv (ProviderDb HR RR) S H C))
      (ops : EvmBlockHeader H) (ids : EvmSpecId S) where
    unfoldable pub known_block_hash :
        HostEvmEnv (ProviderDb HR RR) S H C
        → ℕ
        → Outcome (B256 × HostEvmEnv (ProviderDb HR RR) S H C)
    unfolding validate_history_window spawn_with_db Proof.block_hash
    known_block_hash env id =
        if ids.has_eip2935 env.spec_id
        then (do
          window ←
              context
                (validate_history_window ops env.header.inner id
                  HistoryStorage.history_serve_window)
                "invalid block number"
          history_storage_call env id)
        else (do
          block_number ←
              context (validate_history_window ops env.header.inner id 256) "invalid block number"
          spawn_with_db env (λ db. Proof.block_hash (provider_db p.codec net) db block_number))

    unfoldable pub check_version :
        HostEvmEnv (ProviderDb HR RR) S H C
        → Commitment
        → ℕ
        → Option CommitmentVersion
        → Outcome (Unit {0} × HostEvmEnv (ProviderDb HR RR) S H C)
    unfolding known_block_hash
    check_version env commitment id (some block) = do
      (hash, env') ← known_block_hash env id
      guard (bytes_eq hash commitment.digest) (message "invalid block hash")
      ok (tt, env')
    check_version env commitment id (some beacon) = do
      guard (ids.has_eip4788 env.spec_id) (message "EIP-4788 required")
      (beacon_root, env') ← beacon_roots_call env id
      guard (bytes_eq beacon_root commitment.digest) (message "invalid beacon root")
      ok (tt, env')
    check_version env commitment id (some consensus) =
        panic "not implemented: Unsupported commitment version"
    check_version env commitment id none = panic "not implemented: Unsupported commitment version"

    -- `SteelVerifier::verify_with_config_id` and `verify` of the host
    unfoldable pub verify_with_config_id :
        HostEvmEnv (ProviderDb HR RR) S H C
        → Commitment
        → B256
        → Outcome (Unit {0} × HostEvmEnv (ProviderDb HR RR) S H C)
    unfolding check_version decode_id n
    verify_with_config_id env commitment config_id = do
      guard (bytes_eq commitment.config_id config_id) (message "invalid config ID")
      let (id, version_code) = decode_id commitment
      check_version env commitment id (n version_code)

    unfoldable pub verify :
        HostEvmEnv (ProviderDb HR RR) S H C
        → Commitment
        → Outcome (Unit {0} × HostEvmEnv (ProviderDb HR RR) S H C)
    unfolding verify_with_config_id
    verify env commitment = verify_with_config_id env commitment env.commit.config_id
