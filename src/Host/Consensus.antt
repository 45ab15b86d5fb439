-- ===== src/Host/Consensus.antt =====
-- crates/steel/src/host/builder.rs: the builds that commit to a beacon block, of the execution block
-- itself or of a later one.
use steel.Prelude.{ℕ, none, some, ◌==◌}
use steel.Outcome.{Outcome, ok, assert, guard, message, ◌>>=◌, ◌>>◌}
use steel.Header.{EvmBlockHeader, EvmSpecId, Sealed}
use steel.Platform.{Platform}
use steel.Commitment.{consensus, as_u16}
use steel.Config.Spec.{ChainSpec}
use steel.Config.Digest.{digest}
use steel.Beacon.{BeaconCommit}
use steel.History.Commit.{HistoryCommit}
use steel.Rpc.{Provider, Network, context}
use steel.Host.Provider.{ProviderDb}
use steel.Host.Env.{HostEvmEnv}
use steel.Host.BlockId.{by_hash}
use steel.Host.Builder.{
  EvmEnvBuilder, Beacon, History, CommitmentTarget, block, slot, get_header, create_host_env,
  ensure_distinct,
}
use steel.Host.Beacon.{
  EthResponse, BeaconClient, by_slot, from_header, get_execution_payload_block_hash,
}
use steel.Host.History.{from_headers}

module _ {HR RR H R : Type 0} (net : Network HR RR H R) (eth : EthResponse HR)
    (ops : EvmBlockHeader H) (p : Platform) {S : Type 0} (ids : EvmSpecId S) {U : Type 0}
    (client_of : U → Outcome BeaconClient) where
  -- `build` with a beacon commitment; `client_of` is `BeaconClient::new`
  unfoldable pub build_beacon :
      EvmEnvBuilder (Provider HR RR) (ChainSpec S) (Beacon U)
      → Outcome (HostEvmEnv (ProviderDb HR RR) S H BeaconCommit)
  unfolding get_header from_header create_host_env
  build_beacon self = do
    header ← get_header net ops self none
    client ← client_of self.commitment_config.url
    inner ← from_header p.codec eth ops header self.commitment_config.version self.provider client
    id ← digest p.codec ids self.chain_spec
    create_host_env net ops self.provider self.chunk_size self.chain_spec header
        (record { inner = inner; config_id = id })

  -- the block of the commitment, which a slot names by the payload of its beacon block
  unfoldable pub commitment_header :
      EvmEnvBuilder (Provider HR RR) (ChainSpec S) (History U)
      → BeaconClient
      → CommitmentTarget
      → Outcome (Sealed H)
  unfolding get_header get_execution_payload_block_hash
  commitment_header self client (block id) = get_header net ops self (some id)
  commitment_header self client (slot s) = do
    assert (as_u16 self.commitment_config.config.version == as_u16 consensus)
        "commitment slot target requires consensus commitment version"
    block_hash ←
        context (get_execution_payload_block_hash client (by_slot s))
          "failed to get block hash for beacon slot"
    get_header net ops self (some (by_hash block_hash))

  -- `build` with a commitment to a later beacon block
  unfoldable pub build_history :
      ℕ
      → ℕ
      → EvmEnvBuilder (Provider HR RR) (ChainSpec S) (History U)
      → Outcome (HostEvmEnv (ProviderDb HR RR) S H HistoryCommit)
  unfolding commitment_header ensure_distinct from_headers get_header create_host_env
  build_history fuel rounds self = do
    evm_header ← get_header net ops self none
    client ← client_of self.commitment_config.config.url
    target ← commitment_header self client self.commitment_config.target
    ensure_distinct evm_header target
    inner ←
        from_headers p fuel eth ops self.provider client rounds evm_header target
          self.commitment_config.config.version
    id ← digest p.codec ids self.chain_spec
    env ←
        create_host_env net ops self.provider self.chunk_size self.chain_spec evm_header
          (record { inner = inner; config_id = id })
    guard (ids.has_eip4788 env.spec_id) (message "EIP-4788 not supported")
    ok env
