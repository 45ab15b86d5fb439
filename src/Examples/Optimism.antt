-- ===== src/Examples/Optimism.antt =====
-- Examples of the theorems on the OP chains and on the beacon chain.
use steel.Prelude.{
  ℕ, ◌*◌, ◌≡◌, ◌≢◌, refl, Bytes, B256, Option, none, some, List, [], ◌∷◌, arith, bytes_eq,
}
use steel.Outcome.{Outcome, ok, err, panic, out_of_fuel}
use steel.Mpt.Trie.{hash_slow}
use steel.Mpt.Toy.{toy, toy_keccak256, zeros}
use steel.Merkle.Proof
use steel.Merkle.Tree
use steel.Commitment
use steel.Config.Spec.{ChainSpec, active_fork}
use steel.Config.Digest.{digest, chain_bytes}
use steel.Config.Fork.{Any}
use steel.Game
use steel.Game.{OutputRootProof, DisputeGameCommit, hash}
use steel.Beacon.{BeaconCommit, slot, block_hash_leaf_index}
use steel.Host.Beacon.{
  BeaconBlock, ExecutionPayload, BeaconClient, deneb, block_leaves, execution_payload_leaves,
  from_beacon_root,
}
use steel.Host.Beacon.Sound.{IsCommitted, from_beacon_root-IsCommitted}
use steel.Host.BlockId
use steel.Host.Builder
use steel.Host.Builder.{Nothing}
use steel.Rpc.{Provider}
use steel.Host.Provider.{ProviderDb}
use steel.Op.L1.{L1Block, search}
use steel.Op.L1.Search.{Finds, search-Finds}
use steel.Op.Portal.{Portal, FoundGame, DisputeGame, dispute_game, dispute_game_fetch_count, number}
use steel.Op.Portal.Valid.{IsClaimed, dispute_game-IsClaimed}
use steel.Op.Builder.{
  OpEvmEnvBuilder, OpEvmEnv, DisputeGameConfig, builder, provider, eip1186_proof_chunk_size,
  build_game, commitment,
}
use steel.Op.Builder.Laws.{chunk_size_order, build_game-commitment}
use steel.Examples.Data.{platform, ops, ids, chain, storage_example, state_example}
use steel.Examples.Node.{net, node, env}

-- a chain whose block `b` has the timestamp `2 * b`
abbrev even : L1Block
even = record {
  latest_block = ok 100;
  latest_number = ok 100;
  latest_timestamp = ok 200;
  timestamp = λ b. ok (2 * b);
  sequence_number = λ b. ok 0;
  block_timestamp = λ b. ok (some (2 * b));
}

search-Finds_example :
    (r : Option ℕ) × (search even 40 7 16 23 ≡ ok r) × Finds (λ b. 2 * b) 40 16 23 r
search-Finds_example =
    search-Finds even 40 (λ b. 2 * b) (λ b. refl) (λ a b h. omega arith) 7 16 23 (omega arith)
      (omega arith)

abbrev sized : OpEvmEnvBuilder Nothing Nothing Nothing
sized = record builder { inner = record Builder.builder { chunk_size = 50 } }

abbrev later : OpEvmEnvBuilder ℕ Nothing Nothing
later = record {
  inner = record {
    provider = 7;
    chunk_size = 50;
    block = BlockId.default;
    chain_spec = tt;
    commitment_config = tt;
  };
  l2_provider = 7;
  dispute_game_config = tt;
}

builder-sized : eip1186_proof_chunk_size builder 50 ≡ ok sized
unfolding eip1186_proof_chunk_size
builder-sized = refl

provider-later : eip1186_proof_chunk_size (provider builder 7) 50 ≡ ok later
unfolding eip1186_proof_chunk_size provider
provider-later = refl

chunk_size_order_example : (provider {P = ℕ} sized 7).inner.chunk_size ≢ 50
chunk_size_order_example =
    chunk_size_order builder sized later 50 7 (omega arith) builder-sized provider-later

abbrev abi_encode : OutputRootProof → Bytes
abi_encode proof = proof.latest_blockhash

abbrev abi_decode : Bytes → Option ℕ
abi_decode [] = none
abi_decode (n ∷ bytes) = some n

abbrev output : OutputRootProof
output = record {
  version = Tree.zero_hash;
  state_root = hash_slow toy state_example;
  message_passer_storage_root = hash_slow toy storage_example;
  latest_blockhash = 5 ∷ zeros;
}

abbrev right_game : FoundGame
right_game = record { index = 3; root_claim = toy_keccak256 (5 ∷ zeros); extra_data = 5 ∷ [] }

abbrev wrong_game : FoundGame
wrong_game = record { index = 4; root_claim = zeros; extra_data = 6 ∷ [] }

abbrev portal : Portal
portal = record {
  respected_game_type = ok 0;
  game_count = ok 5;
  find_latest_games = λ t i n. ok (wrong_game ∷ right_game ∷ []);
  find_finalized_index = ok (some 3);
}

abbrev chosen : DisputeGame
chosen = record { index = 3; l2_block_number = 5; output_root_proof = output }

portal-dispute_game : dispute_game net node toy abi_encode abi_decode portal (number 3) ≡ ok chosen
unfolding dispute_game toy_keccak256 bytes_eq
portal-dispute_game = refl

dispute_game-IsClaimed_example :
    (◌≡◌ {A = ℕ} 3 3)
    × ((game_type : ℕ) × (games : List FoundGame) × (portal.find_latest_games game_type 3
            dispute_game_fetch_count
          ≡ ok games)
        × Any (IsClaimed net node toy abi_encode abi_decode portal chosen) games)
dispute_game-IsClaimed_example =
    dispute_game-IsClaimed net node toy abi_encode abi_decode portal 3 chosen portal-dispute_game

abbrev game_builder : OpEvmEnvBuilder (Provider ℕ (Unit {0})) (ChainSpec ℕ) DisputeGameConfig
game_builder = record {
  inner = record {
    provider = node;
    chunk_size = 2;
    block = BlockId.default;
    chain_spec = chain;
    commitment_config = tt;
  };
  l2_provider = node;
  dispute_game_config = record { portal = portal; index = number 3 };
}

abbrev game_env : OpEvmEnv (ProviderDb ℕ (Unit {0})) ℕ ℕ DisputeGameCommit
game_env = record { inner = env; commit = record { game_index = 3; proof = output } }

game_builder-build_game :
    build_game platform 3 net ops ids abi_encode abi_decode game_builder ≡ ok game_env
unfolding build_game bytes_eq toy_keccak256 digest active_fork
game_builder-build_game = refl

build_game-commitment_example :
    (commitment platform 3 net ops ids (Game.commit toy abi_encode) game_env
      ≡ ok (
          Commitment.new 0x100 3
            (hash toy abi_encode output)
            (toy_keccak256 (chain_bytes toy ids chain))))
    × ((5 ∷ zeros) ≡ (5 ∷ zeros))
build_game-commitment_example =
    build_game-commitment platform 3 net ops ids abi_encode abi_decode game_builder game_env
      game_builder-build_game

abbrev some_root : B256
some_root = toy_keccak256 (9 ∷ [])

abbrev payload : ExecutionPayload
payload = record {
  parent_hash = some_root;
  fee_recipient = some_root;
  state_root = some_root;
  receipts_root = some_root;
  logs_bloom = some_root;
  prev_randao = some_root;
  block_number = some_root;
  gas_limit = some_root;
  gas_used = some_root;
  timestamp = some_root;
  extra_data = some_root;
  base_fee_per_gas = some_root;
  block_hash = 5 ∷ zeros;
  transactions = some_root;
  withdrawals = some some_root;
  blob_gas_used = some some_root;
  excess_blob_gas = some some_root;
}

abbrev leaves_of : Outcome (List B256) → List B256
leaves_of (ok leaves) = leaves
leaves_of (err e) = []
leaves_of (panic m) = []
leaves_of out_of_fuel = []

abbrev payload_leaves : List B256
payload_leaves = leaves_of (execution_payload_leaves payload)

abbrev body_leaves : List B256
body_leaves =
    some_root
    ∷ some_root
    ∷ some_root
    ∷ some_root
    ∷ some_root
    ∷ some_root
    ∷ some_root
    ∷ some_root
    ∷ some_root
    ∷ Tree.root (Tree.new toy payload_leaves)
    ∷ some_root
    ∷ some_root
    ∷ some_root
    ∷ []

abbrev beacon_block : BeaconBlock
beacon_block = record {
  fork = deneb;
  slot = some_root;
  proposer_index = some_root;
  parent_root = some_root;
  state_root = some_root;
  body_root = Tree.root (Tree.new toy body_leaves);
  body_merkle_leaves = body_leaves;
  execution_payload = some payload;
}

abbrev beacon_root : B256
beacon_root = Tree.root (Tree.new toy (block_leaves beacon_block))

abbrev client : BeaconClient
client = record { blocks = λ r. ok beacon_block; headers = λ r. ok [] }

abbrev made : Outcome BeaconCommit → BeaconCommit
made (ok commit) = commit
made (err e) = record { proof = []; block_id = slot 0 }
made (panic m) = record { proof = []; block_id = slot 0 }
made out_of_fuel = record { proof = []; block_id = slot 0 }

abbrev beacon_commit : BeaconCommit
beacon_commit = made (from_beacon_root toy block_hash_leaf_index beacon_root client (slot 6))

client-from_beacon_root :
    from_beacon_root toy block_hash_leaf_index beacon_root client (slot 6) ≡ ok beacon_commit
unfolding from_beacon_root Proof.verify bytes_eq toy_keccak256 Tree.root
client-from_beacon_root = refl

from_beacon_root-IsCommitted_example :
    IsCommitted toy block_hash_leaf_index beacon_root client (slot 6) beacon_commit
from_beacon_root-IsCommitted_example =
    from_beacon_root-IsCommitted toy block_hash_leaf_index beacon_root client (slot 6) beacon_commit
      client-from_beacon_root
