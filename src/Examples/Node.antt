-- ===== src/Examples/Node.antt =====
-- The node of the examples on the host, a builder, and a run with its record.
use steel.Prelude.{ℕ, suc, ◌-◌, ◌≡◌, refl, ap, B256, some, List, [], ◌∷◌, arith, map, bytes_eq}
use steel.Outcome.{ok}
use steel.Header.{seal_slow}
use steel.Words.{to_be_bytes}
use steel.Mpt.Trie.{hash_slow}
use steel.Mpt.Encode.{rlp_encoded}
use steel.Mpt.Toy.{toy, toy_keccak256, zeros}
use steel.Config.Spec.{ChainSpec, active_fork}
use steel.Config.Digest.{digest, chain_bytes}
use steel.History.HistoryStorage
use steel.Rpc
use steel.Rpc.{Provider, Network, ProofResponse, StorageProofResponse, RpcBlockId}
use steel.Host.Database.{Query, Answer, ask_all}
use steel.Host.Provider
use steel.Host.Provider.{ProviderDb, provider_db, sort, get_proof as db_get_proof}
use steel.Host.Proof
use steel.Host.Proof.{ProofDb, proof_db, AccountProof, StorageProof}
use steel.Host.Ancestry.{Chain}
use steel.Host.BlockId
use steel.Host.BlockId.{BlockNumberOrTag, number, fmt, from_str}
use steel.Host.Env.{HostEvmEnv}
use steel.Host.Builder.{EvmEnvBuilder, Nothing, build}
use steel.Examples.Data.{platform, ops, ids, chain, storage_example, state_example}

-- a node: the response of a header is its number
abbrev pub net : Network ℕ (Unit {0}) ℕ (Unit {0})
net = record {
  hash = λ n. (n ∷ zeros);
  state_root = λ n. hash_slow toy state_example;
  logs_bloom = λ n. [];
  try_header = λ n. ok n;
  try_receipt = λ r. ok r;
}

abbrev pub slot : B256 → StorageProofResponse
slot k = record { key = k; value = 9; proof = rlp_encoded toy storage_example.root ∷ [] }

abbrev pub response : ProofResponse
response = record {
  address = HistoryStorage.address;
  balance = 7;
  code_hash = HistoryStorage.code_hash;
  nonce = 1;
  storage_hash = hash_slow toy storage_example;
  account_proof = rlp_encoded toy state_example.root ∷ [];
  storage_proof = [];
}

abbrev pub block_of : RpcBlockId → ℕ
block_of (Rpc.number n) = n
block_of (Rpc.hash h) = 5
block_of Rpc.latest = 5
block_of Rpc.safe = 5
block_of Rpc.finalized = 5

abbrev pub node : Provider ℕ (Unit {0})
node = record {
  get_chain_id = ok 1;
  get_block_number = ok 5;
  get_transaction_count = λ a h. ok 1;
  get_balance = λ a h. ok 7;
  get_code_at = λ a h. ok [];
  get_storage_at = λ a i h. ok 9;
  get_proof = λ a ks h. ok (record response { storage_proof = map slot ks });
  get_block = λ id. ok (some (block_of id));
  get_block_receipts = λ h. ok (some []);
  get_logs = λ f. ok [];
}

abbrev pub identity : ℕ → ℕ
identity n = n

pub node-Chain : Chain ops net node identity identity
node-Chain = record {
  served = λ n. refl;
  converted = λ n. refl;
  numbered = λ n. refl;
  linked = λ n. (let back : suc n - 1 ≡ n = omega arith in ap (λ k. k ∷ zeros) back);
}

abbrev pub self : EvmEnvBuilder (Provider ℕ (Unit {0})) (ChainSpec ℕ) Nothing
self = record {
  provider = node;
  chunk_size = 2;
  block = BlockId.default;
  chain_spec = chain;
  commitment_config = tt;
}

abbrev pub config : B256
config = toy_keccak256 (chain_bytes toy ids chain)

abbrev pub source : ProviderDb ℕ (Unit {0})
source = Provider.new node 2 (5 ∷ zeros)

abbrev pub env : HostEvmEnv (ProviderDb ℕ (Unit {0})) ℕ ℕ Nothing
env = record {
  db = Proof.new source;
  chain_id = 1;
  spec_id = 0;
  header = seal_slow ops 5;
  commit = record { inner = tt; config_id = config };
}

pub self-build : build net ops platform ids self ≡ ok env
unfolding build digest active_fork bytes_eq
self-build = refl

abbrev pub queries : List Query
queries =
    Query.basic HistoryStorage.address
    ∷ Query.storage HistoryStorage.address 5
    ∷ Query.block_hash 4
    ∷ []

abbrev pub after : ProofDb (ProviderDb ℕ (Unit {0}))
after = record {
  accounts = (HistoryStorage.address, to_be_bytes 32 5 ∷ []) ∷ [];
  contracts = [];
  block_hash_numbers = 4 ∷ [];
  log_filters = [];
  proofs = [];
  inner = record source { contracts = (toy_keccak256 [], []) ∷ [] };
}

abbrev pub answers : List Answer
answers =
    Answer.info (some (record { balance = 7; nonce = 1; code_hash = toy_keccak256 [] }))
    ∷ Answer.value 9
    ∷ Answer.hash (4 ∷ zeros)
    ∷ []

pub run : ask_all (proof_db (provider_db toy net)) env.db queries ≡ ok (answers, after)
unfolding ask_all proof_db provider_db Proof.basic Provider.basic Proof.new Provider.new
    Proof.storage Provider.storage Proof.block_hash Provider.block_hash
run = refl
