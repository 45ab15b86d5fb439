-- ===== src/Examples/Environments.antt =====
-- Examples of the theorems on environments and databases.
use steel.Prelude.{
  List, All, zero, suc, ℕ, ◌+◌, ◌≤◌, ◌<◌, ◌≡◌, ◌⊎◌, ◌↔◌, inl, inr, refl, B256, Option, none, some,
  [], ◌∷◌, arith, bytes_eq,
}
use steel.Outcome.{Outcome, ok}
use steel.Codec.{Collision}
use steel.Header.{seal_slow}
use steel.Words.{to_be_bytes, to_le_bytes}
use steel.Platform.{AccountInfo, Log, Filter}
use steel.Mpt.Node
use steel.Mpt.Node.{IsNode}
use steel.Mpt.Trie.{hash_slow, get_rlp}
use steel.Mpt.Encode.{rlp_encoded, encode_list_header}
use steel.Mpt.Toy.{toy, toy_keccak256, zeros, weigh}
use steel.Mpt.ToyLaws.{toy-Laws, length-toy_keccak256}
use steel.Commitment
use steel.Commitment.{Commitment, decode_id, n, as_u16}
use steel.Config.Spec.{active_fork}
use steel.Config.Digest.{digest, chain_bytes}
use steel.State
use steel.State.{
  StateDb, WrapStateDb, account, wrap, seen, basic, storage, logs, filter_logs, insert_at,
}
use steel.State.Binding.{IsWellFormed, new-IsWellFormed, storage-binding}
use steel.State.Logs.{Covers, logs_lem}
use steel.Env.{EvmEnv}
use steel.Block.{BlockInput, into_env}
use steel.Block.Binding.{IsChecked, IsAncestor, into_env-IsChecked}
use steel.Block.Digest.{digest-storage}
use steel.Verifier.{Evm, validate_history_window, verify}
use steel.Verifier.Window.{validate_history_window_lem}
use steel.Verifier.Sound.{IsVerified, verify_lem, verify-IsAncestor}
use steel.History.HistoryStorage
use steel.Input
use steel.Input.{EvmInput, ComposeInput}
use steel.Input.Digest.{beacon-storage}
use steel.Merkle.Binding.{IsDigest}
use steel.Beacon
use steel.Beacon.{BeaconCommit, eip4788, as_version, as_id}
use steel.Merkle.Proof
use steel.Examples.Data.{
  platform, ops, ids, receipts, chain, storage_example, state_example, account_example,
}

-- the environment of block 5, which knows its parent, block 4
abbrev input : BlockInput ℕ (Unit {0})
input = record {
  header = 5;
  state_trie = state_example;
  storage_tries = storage_example ∷ [];
  contracts = [];
  ancestors = 4 ∷ [];
  receipts = none;
}

abbrev hashes : ℕ → Option B256
hashes = insert_at (insert_at (λ k. none) 5 (5 ∷ zeros)) 4 (4 ∷ zeros)

abbrev db : StateDb
db = State.new platform state_example (storage_example ∷ []) [] hashes none

abbrev config : B256
config = toy_keccak256 (chain_bytes toy ids chain)

abbrev pub env : EvmEnv StateDb ℕ ℕ Commitment
env = record {
  db = db;
  chain_id = 1;
  spec_id = 0;
  header = seal_slow ops 5;
  commit = Commitment.new 0 5 (5 ∷ zeros) config;
}

pub input-into_env : into_env platform ops ids receipts input chain ≡ ok env
unfolding into_env hash_slow digest toy_keccak256 bytes_eq rlp_encoded encode_list_header
    active_fork as_u16
input-into_env = refl

state_example-IsNode : IsNode state_example.root
unfolding IsNode toy_keccak256 bytes_eq
state_example-IsNode = omega arith

storage_example-IsNode : IsNode storage_example.root
unfolding IsNode toy_keccak256 bytes_eq to_be_bytes
storage_example-IsNode = omega arith

db-IsWellFormed : IsWellFormed platform db
db-IsWellFormed =
    new-IsWellFormed platform state_example (storage_example ∷ []) [] hashes none
      state_example-IsNode (storage_example-IsNode, tt)

headers_eq : (x y : ℕ) → (x ∷ zeros) ≡ (y ∷ zeros) → (x ≡ y) ⊎ Collision toy_keccak256
headers_eq x y h = inl cc

db-account : account platform db HistoryStorage.address ≡ ok (some account_example)
unfolding account Node.get get_rlp State.new toy_keccak256 bytes_eq
db-account = refl

abbrev info : AccountInfo
info = record { balance = 7; nonce = 1; code_hash = HistoryStorage.code_hash }

abbrev asked : WrapStateDb ℕ
asked = (seen (wrap db (seal_slow ops 5)) HistoryStorage.address (some account_example)).1

db-basic : basic platform (wrap db (seal_slow ops 5)) HistoryStorage.address ≡ ok (some info, asked)
unfolding basic wrap Node.get get_rlp State.new toy_keccak256 bytes_eq
db-basic = refl

asked-storage : storage platform asked HistoryStorage.address 5 ≡ ok 9
unfolding storage seen wrap Node.get get_rlp State.new toy_keccak256 bytes_eq rlp_encoded
    encode_list_header hash_slow weigh
asked-storage = refl

storage-binding_example : (◌≡◌ {A = ℕ} 9 9) ⊎ Collision toy_keccak256
storage-binding_example =
    storage-binding platform toy-Laws db db (seal_slow ops 5) (seal_slow ops 5)
      HistoryStorage.address 5 9 9 (some info) (some info) asked asked db-IsWellFormed
      db-IsWellFormed refl db-basic db-basic asked-storage asked-storage

digest-storage_example : (◌≡◌ {A = ℕ} 9 9) ⊎ Collision toy_keccak256
digest-storage_example =
    digest-storage platform ops ids receipts toy-Laws headers_eq input input chain chain env env
      HistoryStorage.address 5 9 9 (some info) (some info) asked asked db-IsWellFormed
      db-IsWellFormed input-into_env input-into_env refl db-basic db-basic asked-storage
      asked-storage

into_env-IsChecked_example : IsChecked platform ops ids receipts chain env × (◌≡◌ {A = ℕ} 5 5)
into_env-IsChecked_example =
    into_env-IsChecked platform ops ids receipts input chain env input-into_env

validate_history_window_lem_example :
    (validate_history_window ops 300 250 256 ≡ ok 250)
    ↔ ((◌≡◌ {A = ℕ} 250 250) × (250 < 300) × (300 ≤ 250 + 256))
validate_history_window_lem_example = validate_history_window_lem ops 300 250 256 250 (omega arith)

abbrev evm : Evm
evm = record {
  try_call = λ address payload. ok zeros;
  abi_encode = to_be_bytes 32;
  abi_decode_validate = λ bytes. ok bytes;
  beacon_roots_address = 1 ∷ [];
  history_storage_address = 2 ∷ [];
}

-- a commitment to block 4
abbrev parent : Commitment
parent = Commitment.new 0 4 (4 ∷ zeros) config

parent-verify : ◌≡◌ {A = Outcome (Unit {0})} (verify evm ops ids env parent) (ok tt)
unfolding verify Commitment.new bytes_eq State.new toy_keccak256 insert_at chain_bytes to_le_bytes
parent-verify = refl

verify_lem_example : (parent.config_id ≡ env.commit.config_id) × IsVerified evm ops ids env parent
verify_lem_example = verify_lem evm ops ids env parent parent-verify

verify-IsAncestor_example : IsAncestor ops 5 (decode_id parent).0 (4 ∷ zeros)
unfolding Commitment.new n decode_id
verify-IsAncestor_example =
    verify-IsAncestor evm ops ids platform receipts input chain env parent input-into_env refl
      (omega arith) refl parent-verify

abbrev every_log : Filter
every_log = record { block_hash = none; address = []; topics = [] }

abbrev other_log : Log
other_log = record { address = 7 ∷ []; topics = []; payload = [] }

other_log-Covers : Covers platform [] (other_log ∷ [])
other_log-Covers = record { addresses = λ filter h. cc; topics = λ filter h. (refl, tt) }

db-logs :
    logs platform ops
      (wrap db (seal_slow ops 5))
      (record every_log { block_hash = some (5 ∷ zeros) })
    ≡ ok []
unfolding logs wrap State.new bytes_eq
db-logs = refl

logs_lem_example :
    [] ≡ filter_logs platform (record every_log { block_hash = some (5 ∷ zeros) }) (other_log ∷ [])
unfolding wrap State.new
logs_lem_example =
    logs_lem platform ops (wrap db (seal_slow ops 5))
      (record every_log { block_hash = some (5 ∷ zeros) }) (other_log ∷ []) [] other_log-Covers
      (inr refl) db-logs

abbrev repeat_sibling : ℕ → List B256
repeat_sibling zero = []
repeat_sibling (suc n) = toy_keccak256 (1 ∷ []) ∷ repeat_sibling n

repeat_sibling-IsDigest : (n : ℕ) → All IsDigest (repeat_sibling n)
repeat_sibling-IsDigest zero = tt
repeat_sibling-IsDigest (suc n) = (length-toy_keccak256 (1 ∷ []), repeat_sibling-IsDigest n)

-- the proof of a block hash in a beacon block
abbrev siblings : List B256
siblings = repeat_sibling 12

abbrev beacon_input : ComposeInput ℕ (Unit {0}) BeaconCommit
beacon_input = record { input = input; commit = record { proof = siblings; block_id = eip4788 12 } }

abbrev digest_of : Outcome (EvmEnv StateDb ℕ ℕ Commitment) → B256
digest_of (Outcome.ok e) = e.commit.digest
digest_of (Outcome.err e) = []
digest_of (Outcome.panic m) = []
digest_of Outcome.out_of_fuel = []

abbrev beacon_env : EvmEnv StateDb ℕ ℕ Commitment
beacon_env = record env {
  commit =
      Commitment.new 1 12
        (digest_of (Input.into_env platform ops ids receipts (EvmInput.beacon beacon_input) chain))
        config;
}

beacon_input-into_env :
    Input.into_env platform ops ids receipts (EvmInput.beacon beacon_input) chain ≡ ok beacon_env
unfolding Input.into_env into_env bytes_eq hash_slow toy_keccak256 rlp_encoded encode_list_header
    digest active_fork Beacon.commit Proof.process_proof as_version as_id Commitment.new
beacon_input-into_env = refl

beacon-storage_example : (◌≡◌ {A = ℕ} 9 9) ⊎ (Collision toy_keccak256 ⊎ Collision toy_keccak256)
beacon-storage_example =
    beacon-storage platform ops ids receipts toy-Laws headers_eq length-toy_keccak256
      (λ n. omega arith) beacon_input beacon_input chain chain beacon_env beacon_env
      HistoryStorage.address 5 9 9 (some info) (some info) asked asked db-IsWellFormed
      db-IsWellFormed (repeat_sibling-IsDigest 12) (repeat_sibling-IsDigest 12)
      beacon_input-into_env beacon_input-into_env refl db-basic db-basic asked-storage asked-storage
