-- ===== src/Host/Proof.antt =====
-- crates/steel/src/host/db/proof.rs: the database that records what a run reads, and the proofs it
-- makes of that.
pub mod Merge
pub mod Requests
use steel.Prelude.{
  ℕ, Bytes, B256, Address, Bool, true, false, Option, none, some, List, [], ◌∷◌, ◌++◌, ◌&&◌, not,
  ◌==◌, ltb, if◌then◌else◌, bytes_eq, length,
}
use steel.Prelude.Maps.{
  HashMap, HashSet, lookup, insert, add, add_number, contains, all_equal, set_eq, map_eq,
}
use steel.Outcome.{Outcome, ok, err, panic, assert, guard, message, ◌>>=◌, ◌>>◌}
use steel.Codec.{Codec}
use steel.Words.{to_be_bytes}
use steel.Platform.{AccountInfo, StateAccount, Filter, Log}
use steel.Mpt.Trie.{empty_root_hash}
use steel.Rpc.{ProofResponse, StorageProofResponse}
use steel.State.{or_default}
use steel.Host.Database.{Database}
use steel.Host.Provider.{keccak_empty}

pub record StorageProof : Type 0 where
  pub value : ℕ
  pub proof : List Bytes

pub record AccountProof : Type 0 where
  pub account : StateAccount
  pub account_proof : List Bytes
  pub storage_proofs : HashMap StorageProof

pub record ProofDb (D : Type 0) : Type 0 where
  -- the accounts that were read, each with its slots
  pub accounts : HashMap HashSet
  pub contracts : HashMap Bytes
  pub block_hash_numbers : List ℕ
  pub log_filters : List Filter
  pub proofs : HashMap AccountProof
  pub inner : D

-- the derived `PartialEq`
unfoldable pub account_eq : StateAccount → StateAccount → Bool
account_eq a b =
    a.nonce == b.nonce
    && (a.balance == b.balance
        && (bytes_eq a.storage_root b.storage_root && bytes_eq a.code_hash b.code_hash))

unfoldable pub storage_proof_eq : StorageProof → StorageProof → Bool
unfolding all_equal
storage_proof_eq a b = a.value == b.value && all_equal a.proof b.proof

unfoldable pub account_proof_eq : AccountProof → AccountProof → Bool
unfolding account_eq storage_proof_eq all_equal map_eq
account_proof_eq a b =
    account_eq a.account b.account
    && (all_equal a.account_proof b.account_proof
        && map_eq storage_proof_eq a.storage_proofs b.storage_proofs)

unfoldable pub new : {D : Type 0} → D → ProofDb D
new db = record {
  accounts = [];
  contracts = [];
  block_hash_numbers = [];
  log_filters = [];
  proofs = [];
  inner = db;
}

module _ {V : Type 0} (eq : V → V → Bool) where
  -- one entry of the other map: a new key is inserted, a known one must have an equal value
  unfoldable pub merge_entry : HashMap V → Bytes → V → Option V → Outcome (HashMap V)
  unfolding insert
  merge_entry m k v none = ok (insert k v m)
  merge_entry m k v (some w) = do assert (eq w v) "mismatching values for key"; ok m

  unfoldable pub merge_checked_maps : HashMap V → HashMap V → Outcome (HashMap V)
  unfolding merge_entry lookup
  merge_checked_maps m [] = ok m
  merge_checked_maps m ((k, v) ∷ other) = do
    m' ← merge_entry m k v (lookup k m)
    merge_checked_maps m' other

-- `default_if_zero`
unfoldable pub is_zero : Bytes → Bool
is_zero [] = true
is_zero (b ∷ bytes) = b == 0 && is_zero bytes

unfoldable pub default_if_zero : B256 → B256 → B256
unfolding is_zero
default_if_zero hash default = if is_zero hash then default else hash

-- `collect()` of the storage proofs of a response: a later one replaces one with the same key
unfoldable pub collect_storage : List StorageProofResponse → HashMap StorageProof
unfolding insert
collect_storage proofs = collect_into proofs []
  where
    collect_into : List StorageProofResponse → HashMap StorageProof → HashMap StorageProof
    collect_into [] m = m
    collect_into (r ∷ rest) m =
        collect_into rest (insert r.key (record { value = r.value; proof = r.proof }) m)

module _ (c : Codec) where
  unfoldable pub response_account : ProofResponse → StateAccount
  unfolding default_if_zero
  response_account r = record {
    nonce = r.nonce;
    balance = r.balance;
    storage_root = default_if_zero r.storage_hash empty_root_hash;
    code_hash = default_if_zero r.code_hash (keccak_empty c);
  }

  -- `proofs.entry(address)`, vacant or occupied
  unfoldable pub add_entry :
      HashMap AccountProof → ProofResponse → Option AccountProof → Outcome (HashMap AccountProof)
  unfolding response_account collect_storage merge_checked_maps account_eq all_equal insert
  add_entry proofs r none = ok (
      insert r.address
        (record {
          account = response_account r;
          account_proof = r.account_proof;
          storage_proofs = collect_storage r.storage_proof;
        })
        proofs)
  add_entry proofs r (some known) = do
    guard
        (account_eq known.account (response_account r)
          && all_equal known.account_proof r.account_proof)
        (message "inconsistent proof response")
    merged ←
        merge_checked_maps storage_proof_eq known.storage_proofs (collect_storage r.storage_proof)
    ok (insert r.address (record known { storage_proofs = merged }) proofs)

  unfoldable pub add_proof : HashMap AccountProof → ProofResponse → Outcome (HashMap AccountProof)
  unfolding add_entry lookup
  add_proof proofs r = add_entry proofs r (lookup r.address proofs)

-- `filter(filter_existing_keys(…))`: the keys that have no proof yet
abbrev pub loaded : Option AccountProof → HashMap StorageProof
loaded none = []
loaded (some p) = p.storage_proofs

abbrev pub is_some : {A : Type 0} → Option A → Bool
is_some none = false
is_some (some a) = true

unfoldable pub filter_existing_keys : Option AccountProof → List B256 → List B256
unfolding lookup
filter_existing_keys p [] = []
filter_existing_keys p (k ∷ ks) =
    let rest = filter_existing_keys p ks in if is_some (lookup k (loaded p)) then rest else k ∷ rest

-- `accounts.entry(address).or_default()`, and the insertion of a slot
unfoldable pub touch : Address → HashMap HashSet → HashMap HashSet
unfolding lookup insert
touch address accounts = insert address (or_default [] (lookup address accounts)) accounts

unfoldable pub touch_slot : Address → B256 → HashMap HashSet → HashMap HashSet
unfolding lookup insert add
touch_slot address key accounts =
    insert address (add key (or_default [] (lookup address accounts))) accounts

module _ {D : Type 0} (ops : Database D) where
  unfoldable pub basic : ProofDb D → Address → Outcome (Option AccountInfo × ProofDb D)
  unfolding touch
  basic db address = do
    (found, inner) ← ops.basic db.inner address
    ok (found, record db { accounts = touch address db.accounts; inner = inner })

  unfoldable pub code_by_hash : ProofDb D → B256 → Outcome (Bytes × ProofDb D)
  unfolding insert
  code_by_hash db hash = do
    (code, inner) ← ops.code_by_hash db.inner hash
    ok (code, record db { contracts = insert hash code db.contracts; inner = inner })

  -- a value that a loaded proof shows is not asked for
  unfoldable pub read_value : D → Address → ℕ → Option StorageProof → Outcome (ℕ × D)
  read_value inner address index (some proof) = ok (proof.value, inner)
  read_value inner address index none = ops.storage inner address index

  unfoldable pub storage : ProofDb D → Address → ℕ → Outcome (ℕ × ProofDb D)
  unfolding touch_slot read_value lookup
  storage db address index = do
    let key = to_be_bytes 32 index
    (value, inner) ←
        read_value db.inner address index (lookup key (loaded (lookup address db.proofs)))
    ok (value, record db { accounts = touch_slot address key db.accounts; inner = inner })

  unfoldable pub block_hash : ProofDb D → ℕ → Outcome (B256 × ProofDb D)
  unfolding add_number
  block_hash db number = do
    (hash, inner) ← ops.block_hash db.inner number
    ok (
      hash,
      record db { block_hash_numbers = add_number number db.block_hash_numbers; inner = inner },
    )

  unfoldable pub logs : ProofDb D → Filter → Outcome (List Log × ProofDb D)
  logs db filter = do
    (found, inner) ← ops.logs db.inner filter
    ok (found, record db { log_filters = db.log_filters ++ (filter ∷ []); inner = inner })

  -- the wrapped database by its operations
  unfoldable pub proof_db : Database (ProofDb D)
  proof_db = record {
    basic = basic;
    code_by_hash = code_by_hash;
    storage = storage;
    block_hash = block_hash;
    logs = logs;
  }
