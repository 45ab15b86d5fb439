-- ===== src/Examples/Calls.antt =====
-- Examples of the theorems on contract calls.
use steel.Prelude.{Address, arith, none, bytes_eq, ℕ, ◌≡◌, refl, true, false, Bytes, some, [], ◌∷◌}
use steel.Prelude.Maps.{contains_number, lookup}
use steel.Outcome.{Outcome, ok, ◌>>=◌}
use steel.Header.{seal_slow}
use steel.Mpt.Node
use steel.Mpt.Trie.{get_rlp, hash_slow}
use steel.Mpt.Encode.{rlp_encoded, encode_list_header}
use steel.Mpt.Toy.{toy, toy_keccak256, zeros}
use steel.Commitment
use steel.Commitment.{Commitment}
use steel.State
use steel.State.{StateDb, WrapStateDb, insert, insert_at, wrap}
use steel.Platform.{Platform}
use steel.Env.{EvmEnv}
use steel.Block.{commit}
use steel.Input
use steel.Input.{EvmInput}
use steel.History.HistoryStorage
use steel.Host.Database.{Query, ask_all}
use steel.Host.Provider
use steel.Host.Provider.{ProviderDb, provider_db}
use steel.Host.Proof
use steel.Host.Proof.{ProofDb, StorageProof, loaded, proof_db}
use steel.Words.{to_be_bytes}
use steel.Host.Env.{HostEvmEnv, commitment}
use steel.Host.Builder.{Nothing}
use steel.Contract.{
  Run, done, asks, ExecutionResult, success, EvmFactory, SolCall, CallBuilder, raw_call, drive, raw,
  guest_db, guest_call,
}
use steel.Contract
use steel.Contract.Preflight.{call}
use steel.Contract.Runs.{asked, call-proof_db}
use steel.Contract.Replay.{call-guest_call}
use steel.Contract.EndToEnd.{IsCalled, call-into_env}
use steel.Examples.Data.{
  platform, ops, ids, receipts, chain, account_example, state_example, storage_example,
}
use steel.Examples.Node.{
  net, identity, node-Chain, self, source, env, self-build, queries, answers, after, run,
}
use steel.Examples.Hosts.{made, asked_early, no_receipts, env-into_block_input}

-- a machine that reads an account, a slot and a block hash, and returns a byte
abbrev program : Run (ExecutionResult (Unit {0}))
program = asks (Query.basic HistoryStorage.address) (λ i.
    asks (Query.storage HistoryStorage.address 5)
      (λ v. asks (Query.block_hash 4) (λ h. done (success false (7 ∷ [])))))

abbrev machine : EvmFactory Bytes ℕ ℕ (Unit {0})
machine = record { new_tx = λ a d. d; transact = λ i s h tx. program }

abbrev builder : CallBuilder Bytes Bytes
builder = record { tx = 1 ∷ []; sol = raw_call (1 ∷ []) }

abbrev env_after : HostEvmEnv (ProviderDb ℕ (Unit {0})) ℕ ℕ Nothing
env_after = record env { db = after }

env-call : call platform net machine env builder ≡ ok (7 ∷ [], env_after)
unfolding call provider_db Proof.basic Provider.basic Proof.new Provider.new Proof.storage
    Provider.storage Proof.block_hash Provider.block_hash raw_call proof_db
env-call = refl

call-into_env_example :
    IsCalled platform net ops machine env env_after builder (7 ∷ [])
    × (guest : EvmEnv StateDb ℕ ℕ Commitment) × (Input.into_env platform ops ids receipts
          (EvmInput.block made)
          chain
        ≡ ok guest)
    × (guest.header ≡ seal_slow ops 5)
    × (commitment (λ unit header id. ok (commit ops header id)) env ≡ ok guest.commit)
    × ((k : ℕ) → contains_number k (4 ∷ []) ≡ true → guest.db.block_hashes k ≡ some (k ∷ zeros))
call-into_env_example =
    call-into_env platform net ops machine ids 3 receipts self env env_after identity identity 5
      builder (7 ∷ []) (EvmInput.block made) node-Chain self-build refl env-call asked_early
      no_receipts env-into_block_input

-- the proof of the slot that the program reads
abbrev slot_proof : StorageProof
slot_proof = record { value = 9; proof = [] }

-- the database with this proof loaded
abbrev prefetched : ProofDb (ProviderDb ℕ (Unit {0}))
prefetched = record (Proof.new source) {
  proofs =
      (
        HistoryStorage.address,
        record {
          account = account_example;
          account_proof = [];
          storage_proofs = (to_be_bytes 32 5, slot_proof) ∷ [];
        },
      )
      ∷ [];
}

prefetched-told :
    (a : Address) (i : ℕ) (p : StorageProof)
    → lookup (to_be_bytes 32 i) (loaded (lookup a prefetched.proofs)) ≡ some p
    → ◌≡◌ {A = Outcome ℕ} (ok 9) (ok p.value)
unfolding lookup
prefetched-told a i p e = ground arith

call-proof_db_example :
    (Contract.call (proof_db (provider_db toy net)) prefetched builder.sol program
      >>= λ (result, db). ok (result, db.inner))
    ≡ Contract.call (provider_db toy net) source builder.sol program
unfolding Proof.new Provider.new
call-proof_db_example = call-proof_db toy net prefetched builder.sol program prefetched-told

-- the same account, with the hash of the code that the node has
abbrev platform_without_code : Platform
platform_without_code = record platform {
  decode_account = λ bytes. ok (record account_example { code_hash = toy_keccak256 [] }, []);
}

abbrev guest : EvmEnv StateDb ℕ ℕ Commitment
guest = record {
  db =
      State.new platform_without_code state_example (storage_example ∷ []) []
        (insert_at (λ k. none) 4 (4 ∷ zeros)) none;
  chain_id = 1;
  spec_id = 0;
  header = seal_slow ops 5;
  commit = Commitment.new 0 5 (5 ∷ zeros) zeros;
}

abbrev wrapped : WrapStateDb ℕ
wrapped = record {
  inner = guest.db;
  header = guest.header;
  account_storage = insert (λ a. none) HistoryStorage.address (some storage_example);
}

env-call_without_code : call platform_without_code net machine env builder ≡ ok (7 ∷ [], env_after)
unfolding call provider_db Proof.basic Provider.basic Proof.new Provider.new Proof.storage
    Provider.storage Proof.block_hash Provider.block_hash raw_call proof_db
env-call_without_code = refl

asked-queries : asked (proof_db (provider_db toy net)) env.db program ≡ queries
unfolding asked provider_db Proof.basic Provider.basic Proof.new Provider.new Proof.storage
    Provider.storage Proof.block_hash Provider.block_hash proof_db
asked-queries = refl

guest-answers :
    ask_all (guest_db platform_without_code ops) (wrap guest.db guest.header) queries
    ≡ ok (answers, wrapped)
unfolding ask_all wrap State.basic State.storage State.block_hash State.new get_rlp Node.get
    bytes_eq toy_keccak256 hash_slow rlp_encoded encode_list_header insert_at
guest-answers = refl

call-guest_call_example : guest_call platform_without_code ops machine guest builder ≡ ok (7 ∷ [])
call-guest_call_example =
    call-guest_call platform_without_code net ops machine env env_after guest builder (7 ∷ [])
      answers wrapped env-call_without_code refl refl refl (rw asked-queries run)
      (rw asked-queries guest-answers)
