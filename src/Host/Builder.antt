-- ===== src/Host/Builder.antt =====
-- crates/steel/src/host/builder.rs: the environment on the host, step by step. The type of what is
-- not yet given is `Unit`.
use steel.Prelude.{ℕ, Bytes, B256, Option, none, some, List, [], ◌∷◌, ◌==◌, bytes_eq, not}
use steel.Outcome.{Outcome, ok, assert, guard, message, ◌>>=◌, ◌>>◌}
use steel.Header.{EvmBlockHeader, EvmSpecId, Sealed, seal_slow}
use steel.Platform.{Platform}
use steel.Commitment.{CommitmentVersion, beacon, consensus}
use steel.Config.Spec.{ChainSpec, active_fork}
use steel.Config.Digest.{digest}
use steel.Env
use steel.Env.{EvmEnv}
use steel.State.{or_default}
use steel.History.Eip2935
use steel.History.Host
use steel.Rpc
use steel.Rpc.{Provider, Network, ProofResponse, StorageProofResponse, context, or_err}
use steel.Host.Provider.{ProviderDb, default_chunk_size, new as new_db, get_proof as db_proof}
use steel.Host.Proof
use steel.Host.Proof.{ProofDb}
use steel.Host.BlockId
use steel.Host.BlockId.{BlockId, by_hash, by_number, BlockNumberOrTag, number, into_rpc_type}
use steel.Host.Input.{HostCommit}
use steel.Host.Env.{HostEvmEnv}
use steel.Words.{to_be_bytes}

pub record EvmEnvBuilder (P S C : Type 0) : Type 0 where
  pub provider : P
  -- `provider_config.eip1186_proof_chunk_size`
  pub chunk_size : ℕ
  pub block : BlockId
  pub chain_spec : S
  pub commitment_config : C

-- The configurations of a commitment; a URL is what the client is made of.
pub record Eip2935History : Type 0 where
  pub target : BlockId

pub record Beacon (U : Type 0) : Type 0 where
  pub url : U
  pub version : CommitmentVersion

pub data CommitmentTarget : Type 0 where
  block : BlockId → CommitmentTarget
  slot : ℕ → CommitmentTarget

pub record History (U : Type 0) : Type 0 where
  pub config : Beacon U
  pub target : CommitmentTarget

abbrev pub Nothing : Type 0
Nothing = Unit {0}

-- `EvmEnv::builder()`
abbrev pub builder : EvmEnvBuilder Nothing Nothing Nothing
builder = record {
  provider = tt;
  chunk_size = default_chunk_size;
  block = BlockId.default;
  chain_spec = tt;
  commitment_config = tt;
}

unfoldable pub provider :
    {P S : Type 0} → EvmEnvBuilder Nothing S Nothing → P → EvmEnvBuilder P S Nothing
provider self p = record {
  provider = p;
  chunk_size = self.chunk_size;
  block = self.block;
  chain_spec = self.chain_spec;
  commitment_config = self.commitment_config;
}

unfoldable pub chain_spec : {P S C : Type 0} → EvmEnvBuilder P Nothing C → S → EvmEnvBuilder P S C
chain_spec self spec = record {
  provider = self.provider;
  chunk_size = self.chunk_size;
  block = self.block;
  chain_spec = spec;
  commitment_config = self.commitment_config;
}

-- another configuration of the commitment
abbrev pub configure : {P S C D : Type 0} → EvmEnvBuilder P S C → D → EvmEnvBuilder P S D
configure self config = record {
  provider = self.provider;
  chunk_size = self.chunk_size;
  block = self.block;
  chain_spec = self.chain_spec;
  commitment_config = config;
}

module _ {P S : Type 0} where
  unfoldable pub commitment_block :
      EvmEnvBuilder P S Nothing → BlockId → EvmEnvBuilder P S Eip2935History
  commitment_block self id = configure self (record { target = id })

  unfoldable pub commitment_block_hash :
      EvmEnvBuilder P S Nothing → B256 → EvmEnvBuilder P S Eip2935History
  unfolding commitment_block
  commitment_block_hash self hash = commitment_block self (by_hash hash)

  unfoldable pub commitment_block_number_or_tag :
      EvmEnvBuilder P S Nothing → BlockNumberOrTag → EvmEnvBuilder P S Eip2935History
  unfolding commitment_block
  commitment_block_number_or_tag self tag = commitment_block self (by_number tag)

  unfoldable pub commitment_block_number :
      EvmEnvBuilder P S Nothing → ℕ → EvmEnvBuilder P S Eip2935History
  unfolding commitment_block_number_or_tag
  commitment_block_number self n = commitment_block_number_or_tag self (number n)

  module _ {U : Type 0} where
    unfoldable pub beacon_api : EvmEnvBuilder P S Nothing → U → EvmEnvBuilder P S (Beacon U)
    beacon_api self url = configure self (record { url = url; version = beacon })

    unfoldable pub consensus_commitment :
        EvmEnvBuilder P S (Beacon U) → EvmEnvBuilder P S (Beacon U)
    consensus_commitment self = record self {
      commitment_config = record self.commitment_config { version = consensus };
    }

    -- the methods of the same names on a builder with a beacon API
    unfoldable pub beacon_commitment_block :
        EvmEnvBuilder P S (Beacon U) → BlockId → EvmEnvBuilder P S (History U)
    beacon_commitment_block self id =
        configure self (record { config = self.commitment_config; target = block id })

    unfoldable pub beacon_commitment_block_hash :
        EvmEnvBuilder P S (Beacon U) → B256 → EvmEnvBuilder P S (History U)
    unfolding beacon_commitment_block
    beacon_commitment_block_hash self hash = beacon_commitment_block self (by_hash hash)

    unfoldable pub beacon_commitment_block_number_or_tag :
        EvmEnvBuilder P S (Beacon U) → BlockNumberOrTag → EvmEnvBuilder P S (History U)
    unfolding beacon_commitment_block
    beacon_commitment_block_number_or_tag self tag = beacon_commitment_block self (by_number tag)

    unfoldable pub beacon_commitment_block_number :
        EvmEnvBuilder P S (Beacon U) → ℕ → EvmEnvBuilder P S (History U)
    unfolding beacon_commitment_block_number_or_tag
    beacon_commitment_block_number self n = beacon_commitment_block_number_or_tag self (number n)

    unfoldable pub consensus_commitment_slot :
        EvmEnvBuilder P S (Beacon U) → ℕ → EvmEnvBuilder P S (History U)
    consensus_commitment_slot self s = configure self (record {
      config = record { url = self.commitment_config.url; version = consensus };
      target = slot s;
    })

module _ {P S C : Type 0} where
  unfoldable pub block_number_or_tag : EvmEnvBuilder P S C → BlockNumberOrTag → EvmEnvBuilder P S C
  block_number_or_tag self tag = record self { block = by_number tag }

  unfoldable pub block_number : EvmEnvBuilder P S C → ℕ → EvmEnvBuilder P S C
  unfolding block_number_or_tag
  block_number self n = block_number_or_tag self (number n)

  unfoldable pub block_hash : EvmEnvBuilder P S C → B256 → EvmEnvBuilder P S C
  block_hash self hash = record self { block = by_hash hash }

  unfoldable pub eip1186_proof_chunk_size : EvmEnvBuilder P S C → ℕ → Outcome (EvmEnvBuilder P S C)
  eip1186_proof_chunk_size self size = do
    assert (not (size == 0)) "chunk size must be non-zero"
    ok (record self { chunk_size = size })

unfoldable pub ensure_distinct : {H : Type 0} → Sealed H → Sealed H → Outcome (Unit {0})
ensure_distinct evm_header commitment_header =
    guard (not (bytes_eq evm_header.seal commitment_header.seal))
      (message "The execution block matches the commitment block.")

-- the keys of some slots, and their proofs in a response
unfoldable pub slot_keys : List ℕ → List B256
slot_keys [] = []
slot_keys (i ∷ is) = to_be_bytes 32 i ∷ slot_keys is

unfoldable pub slot_proofs : List StorageProofResponse → List (List Bytes)
slot_proofs [] = []
slot_proofs (r ∷ rs) = r.proof ∷ slot_proofs rs

module _ {HR RR H R : Type 0} (net : Network HR RR H R) (ops : EvmBlockHeader H) where
  -- a block of the node, whose hash must be the one that the node tells
  unfoldable pub get_header :
      {S C : Type 0} → EvmEnvBuilder (Provider HR RR) S C → Option BlockId → Outcome (Sealed H)
  unfolding into_rpc_type
  get_header self id = do
    rpc_id ← into_rpc_type self.provider (or_default self.block id)
    response ← context (self.provider.get_block rpc_id) "eth_getBlock failed"
    rpc_header ← or_err response "block not found"
    header ← context (net.try_header rpc_header) "header invalid"
    guard (bytes_eq (ops.hash_slow header) (net.hash rpc_header))
        (message "computed block hash does not match the hash returned by the API")
    ok (seal_slow ops header)

  -- A node with another chain identifier is logged, and no error.
  unfoldable pub create_host_env :
      {S C : Type 0}
      → Provider HR RR
      → ℕ
      → ChainSpec S
      → Sealed H
      → HostCommit C
      → Outcome (HostEvmEnv (ProviderDb HR RR) S H C)
  unfolding Proof.new new_db Env.new
  create_host_env node chunk_size spec header commit = do
    provider_chain_id ← context node.get_chain_id "eth_chainId failed"
    spec_id ← active_fork spec (ops.number header.inner) (ops.timestamp header.inner)
    ok (
        Env.new (Proof.new (new_db node chunk_size header.seal)) spec.chain_id spec_id header
          commit)

  module _ (p : Platform) {S : Type 0} (ids : EvmSpecId S) where
    -- `build` with a block commitment
    unfoldable pub build :
        EvmEnvBuilder (Provider HR RR) (ChainSpec S) Nothing
        → Outcome (HostEvmEnv (ProviderDb HR RR) S H Nothing)
    unfolding get_header create_host_env
    build self = do
      header ← get_header self none
      id ← digest p.codec ids self.chain_spec
      create_host_env self.provider self.chunk_size self.chain_spec header
          (record { inner = tt; config_id = id })

    -- `HistoryCommit::from_headers` of EIP-2935 reads blocks and proofs of the node
    unfoldable pub history_header : Provider HR RR → ℕ → Outcome H
    history_header node n = do
      response ← context (node.get_block (Rpc.number n)) "eth_getBlockByNumber failed"
      rpc_header ← or_err response "block not found"
      context (net.try_header rpc_header) "header invalid"

    unfoldable pub history_provider : Provider HR RR → Host.Provider H
    unfolding history_header slot_keys slot_proofs new_db
    history_provider node = record {
      get_header = history_header node;
      get_proof = λ hash address slots. (do
        r ←
            context (db_proof (new_db node default_chunk_size hash) address (slot_keys slots))
              "eth_getProof failed"
        ok (
          r.code_hash,
          record { account_proof = r.account_proof; storage_proof = slot_proofs r.storage_proof },
        ));
    }

    -- `build` with a commitment to a later block
    unfoldable pub build_history :
        ℕ
        → EvmEnvBuilder (Provider HR RR) (ChainSpec S) Eip2935History
        → Outcome (HostEvmEnv (ProviderDb HR RR) S H (Eip2935.HistoryCommit H))
    unfolding get_header create_host_env ensure_distinct history_provider
    build_history fuel self = do
      evm_header ← get_header self none
      commitment_header ← get_header self (some self.commitment_config.target)
      ensure_distinct evm_header commitment_header
      history_commit ←
          Host.from_headers p ops (history_provider self.provider) fuel evm_header commitment_header
      id ← digest p.codec ids self.chain_spec
      env ←
          create_host_env self.provider self.chunk_size self.chain_spec evm_header
            (record { inner = history_commit; config_id = id })
      guard (ids.has_eip2935 env.spec_id) (message "EIP-2935 not supported")
      ok env
