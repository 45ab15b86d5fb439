-- ===== src/Examples/Hosts.antt =====
-- Examples of the theorems on the host.
use steel.Prelude.{
  bytes_eq, ℕ, ◌≤◌, ◌≡◌, refl, true, false, none, some, [], ◌∷◌, ◌||◌, arith, map, All,
}
use mathlib.Core.Option.{or_else}
use steel.Prelude.Maps.{HashSet, lookup, contains_number, set_eq}
use steel.Outcome.{ok}
use steel.Header.{seal_slow}
use steel.Words.{to_be_bytes}
use steel.Platform.{Filter}
use steel.Mpt.Trie.{hash_slow, from_rlp_nodes}
use steel.Mpt.Decode.{parse_node}
use steel.Mpt.Resolve.{resolve_digests}
use steel.Mpt.Encode.{rlp_encoded, encode_list_header}
use steel.Mpt.Toy.{toy, toy_keccak256, zeros, toy_decode_raw, toy_decode_bytes}
use steel.Commitment.{Commitment}
use steel.State
use steel.State.{wrap, names_block, StateDb, insert_at, storage_trie, select_logs}
use steel.Env.{EvmEnv}
use steel.Block.{BlockInput, BlockHashes, link_ancestors, commit}
use steel.Input
use steel.Input.{EvmInput}
use steel.History.HistoryStorage
use steel.Host.Provider
use steel.Host.Provider.{ProviderDb, provider_db, sort, get_proof as db_get_proof}
use steel.Host.Proof.{ProofDb, AccountProof}
use steel.Host.Proof.Requests.{state_proof, ancestor_proof, db_block}
use steel.Host.Proof.Merge.{merge}
use steel.Host.Chunks.{get_proof-chunks}
use steel.Host.Recorded.{Recorded, ask_all-Recorded}
use steel.Host.Merged.{merge_lem, merge-panic, mismatch}
use steel.Host.Proven.{IsProven, state_proof-IsProven}
use steel.Host.Ancestry.{below, ancestor_proof-link_ancestors}
use steel.Host.Input.{from_proof_db, into_block_input}
use steel.Host.BlockId.{number, fmt, from_str}
use steel.Host.BlockId.RoundTrip.{from_str-fmt}
use steel.Host.Env.{commitment}
use steel.Host.EndToEnd.{build-into_env}
use steel.Host.Accepted.{ServesReceipts}
use steel.Host.Exclusion.{from_proof_db-logs}
use steel.Examples.Environments.{input-into_env, env as guest}
use steel.Examples.Data.{
  platform, ops, ids, receipts, chain, storage_example, state_example, account_example,
}
use steel.Examples.Node.{
  net, slot, response, identity, node-Chain, self, source, env, self-build, queries, after, answers,
  run,
}

pub asked_early : (k : ℕ) → contains_number k (4 ∷ []) ≡ true → k ≤ 5
unfolding contains_number
asked_early k h = ground arith

pub no_receipts : ServesReceipts platform 3 net ops ids receipts after 5
no_receipts responses found served decoded = refl

abbrev pub made : BlockInput ℕ (Unit {0})
made = record {
  header = 5;
  state_trie = state_example;
  storage_tries = storage_example ∷ [];
  contracts = [];
  ancestors = 4 ∷ [];
  receipts = none;
}

pub env-into_block_input :
    into_block_input platform 3 net ops (record env { db = after }) ≡ ok (EvmInput.block made)
unfolding into_block_input Provider.new db_get_proof from_rlp_nodes parse_node toy_decode_raw
    rlp_encoded encode_list_header toy_keccak256 toy_decode_bytes resolve_digests to_be_bytes
    hash_slow
env-into_block_input = refl

build-into_env_example :
    (guest : EvmEnv StateDb ℕ ℕ Commitment) × (Input.into_env platform ops ids receipts
        (EvmInput.block made)
        chain
      ≡ ok guest)
    × (guest.header ≡ seal_slow ops 5)
    × (commitment (λ unit header id. ok (commit ops header id)) env ≡ ok guest.commit)
    × ((k : ℕ) → contains_number k (4 ∷ []) ≡ true → guest.db.block_hashes k ≡ some (k ∷ zeros))
build-into_env_example =
    build-into_env platform net ops ids 3 receipts self env identity identity 5 queries answers
      after (EvmInput.block made) node-Chain self-build refl run asked_early no_receipts
      env-into_block_input

ask_all-Recorded_example : All (Recorded after) queries
ask_all-Recorded_example = ask_all-Recorded (provider_db toy net) env.db queries run

abbrev proof_of : AccountProof
proof_of = record {
  account = account_example;
  account_proof = rlp_encoded toy state_example.root ∷ [];
  storage_proofs =
      (to_be_bytes 32 5, record { value = 9; proof = rlp_encoded toy storage_example.root ∷ [] })
      ∷ [];
}

abbrev proven : ProofDb (ProviderDb ℕ (Unit {0}))
proven = record after { proofs = (HistoryStorage.address, proof_of) ∷ [] }

after-state_proof : state_proof net toy 3 after ≡ ok ((state_example, storage_example ∷ []), proven)
unfolding state_proof Provider.new db_get_proof from_rlp_nodes parse_node toy_decode_raw rlp_encoded
    encode_list_header toy_keccak256 toy_decode_bytes resolve_digests to_be_bytes hash_slow
after-state_proof = refl

state_proof-IsProven_example :
    All
      (IsProven toy 3 proven (
        storage_trie (State.new platform state_example (storage_example ∷ []) [] (λ k. none) none)))
      after.accounts
state_proof-IsProven_example =
    state_proof-IsProven net platform 3 after proven state_example (storage_example ∷ []) []
      (λ k. none) none after-state_proof

ancestor_proof-link_ancestors_example :
    (count : ℕ) × (hashes : BlockHashes) × (count ≤ 5)
    × (ancestor_proof after 5 ≡ ok (below identity count 5))
    × (link_ancestors ops 5 (below identity count 5) (insert_at (λ k. none) 5 (5 ∷ zeros))
        ≡ ok hashes)
    × ((k : ℕ) → contains_number k (4 ∷ []) ≡ true → hashes k ≡ some (k ∷ zeros))
unfolding Provider.new
ancestor_proof-link_ancestors_example =
    ancestor_proof-link_ancestors ops net identity identity after 5 node-Chain asked_early

abbrev logs_of_block : Filter
logs_of_block = record { block_hash = some (5 ∷ zeros); address = []; topics = [] }

abbrev asked_logs : ProofDb (ProviderDb ℕ (Unit {0}))
asked_logs = record after { log_filters = logs_of_block ∷ [] }

asked_logs-from_proof_db : from_proof_db platform 3 net ops asked_logs (seal_slow ops 5) ≡ ok made
unfolding from_proof_db Provider.new db_get_proof from_rlp_nodes parse_node toy_decode_raw
    rlp_encoded encode_list_header toy_keccak256 toy_decode_bytes resolve_digests to_be_bytes
    hash_slow
asked_logs-from_proof_db = refl

asked_logs-named : names_block logs_of_block.block_hash (5 ∷ zeros) ≡ true
unfolding bytes_eq
asked_logs-named = refl

asked_logs-db_block : db_block net asked_logs.inner ≡ ok 5
unfolding db_block Provider.new
asked_logs-db_block = refl

from_proof_db-logs_example :
    State.logs platform ops (wrap guest.db guest.header) logs_of_block ≡ ok []
from_proof_db-logs_example =
    from_proof_db-logs net platform 3 ops ids receipts asked_logs 5 made chain guest 5 [] []
      logs_of_block refl asked_logs-named asked_logs-db_block refl asked_logs-from_proof_db refl
      input-into_env

-- the slot 6 of the same account
abbrev other : ProofDb (ProviderDb ℕ (Unit {0}))
other = record after { accounts = (HistoryStorage.address, to_be_bytes 32 6 ∷ []) ∷ [] }

slots_differ : set_eq (to_be_bytes 32 5 ∷ []) (to_be_bytes 32 6 ∷ []) ≡ false
unfolding set_eq to_be_bytes
slots_differ = refl

after-lookup :
    (s : HashSet) → lookup HistoryStorage.address ((HistoryStorage.address, s) ∷ []) ≡ some s
unfolding lookup
after-lookup s = refl

merge-panic_example : merge after other ≡ mismatch
merge-panic_example =
    merge-panic after other HistoryStorage.address (to_be_bytes 32 5 ∷ []) (to_be_bytes 32 6 ∷ [])
      (after-lookup _) (after-lookup _) slots_differ

after-merge : merge after after ≡ ok after
unfolding merge to_be_bytes
after-merge = refl

merge_lem_example :
    (lookup HistoryStorage.address after.accounts
      ≡ or_else
          (lookup HistoryStorage.address after.accounts)
          (lookup HistoryStorage.address after.accounts))
    × (lookup HistoryStorage.address after.contracts
        ≡ or_else
            (lookup HistoryStorage.address after.contracts)
            (lookup HistoryStorage.address after.contracts))
    × (lookup HistoryStorage.address after.proofs
        ≡ or_else
            (lookup HistoryStorage.address after.proofs)
            (lookup HistoryStorage.address after.proofs))
    × (contains_number 4 after.block_hash_numbers ≡ (
        contains_number 4 after.block_hash_numbers || contains_number 4 after.block_hash_numbers))
    × (after.inner ≡ after.inner)
merge_lem_example = merge_lem after after after HistoryStorage.address 4 after-merge

get_proof-chunks_example :
    db_get_proof source HistoryStorage.address
      (to_be_bytes 32 7 ∷ to_be_bytes 32 5 ∷ to_be_bytes 32 6 ∷ [])
    ≡ ok (record response {
      storage_proof = map slot (sort (to_be_bytes 32 7 ∷ to_be_bytes 32 5 ∷ to_be_bytes 32 6 ∷ []));
    })
unfolding Provider.new
get_proof-chunks_example =
    get_proof-chunks source HistoryStorage.address response slot
      (to_be_bytes 32 7 ∷ to_be_bytes 32 5 ∷ to_be_bytes 32 6 ∷ []) (λ ks. refl) (omega arith)

from_str-fmt_example : from_str (fmt (number 4660)) ≡ ok (number 4660)
from_str-fmt_example = from_str-fmt (number 4660) (omega arith)
