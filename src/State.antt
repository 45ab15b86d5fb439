-- ===== src/State.antt =====
-- crates/steel/src/state.rs: the read-only database of the guest over sparse tries.
pub mod Binding
pub mod Logs
use steel.Prelude.{
  ℕ, Bytes, B256, Address, Bool, true, false, Option, none, some, List, [], ◌∷◌, ◌&&◌, not, ◌==◌,
  bytes_eq, if◌then◌else◌,
}
use steel.Outcome.{Outcome, ok, panic, expect, assert, ◌>>=◌, ◌>>◌}
use steel.Codec.{Codec}
use steel.Header.{EvmBlockHeader, Sealed}
use steel.Words.{to_be_bytes}
use steel.Platform.{Platform, StateAccount, AccountInfo, Log, Filter}
use steel.Mpt.Trie.{MerkleTrie, get_rlp, hash_slow}
use steel.Event.{matches_filter}

pub record StateDb : Type 0 where
  pub state_trie : MerkleTrie
  -- hash maps, by their `get`
  pub storage_tries : B256 → Option MerkleTrie
  pub contracts : B256 → Option Bytes
  pub block_hashes : ℕ → Option B256
  pub logs : Option (List Log)

-- `HashMap::insert` at a byte string and at a number
unfoldable pub insert : {V : Type 0} → (Bytes → Option V) → Bytes → V → Bytes → Option V
insert m k v j = if bytes_eq k j then some v else m j

unfoldable pub insert_at : {V : Type 0} → (ℕ → Option V) → ℕ → V → ℕ → Option V
insert_at m k v j = if k == j then some v else m j

-- `into_iter().map(|x| (key(x), x)).collect()`
unfoldable pub collect_by :
    {V : Type 0} → (V → B256) → (Bytes → Option V) → List V → Bytes → Option V
unfolding insert
collect_by key m [] = m
collect_by key m (x ∷ xs) = collect_by key (insert m (key x) x) xs

abbrev pub or_default : {A : Type 0} → A → Option A → A
or_default d none = d
or_default d (some a) = a

-- `Option::unwrap_or_else(|| panic!(…))`
abbrev pub or_panic : {A : Type 0} → Option A → Outcome A
or_panic none = panic "not found"
or_panic (some a) = ok a

module _ (p : Platform) where
  unfoldable pub new :
      MerkleTrie → List MerkleTrie → List Bytes → (ℕ → Option B256) → Option (List Log) → StateDb
  unfolding collect_by
  new state_trie storage_tries contracts block_hashes logs = record {
    state_trie = state_trie;
    storage_tries = collect_by (hash_slow p.codec) (λ k. none) storage_tries;
    contracts = collect_by p.codec.keccak256 (λ k. none) contracts;
    block_hashes = block_hashes;
    logs = logs;
  }

  unfoldable pub account : StateDb → Address → Outcome (Option StateAccount)
  account db address =
      expect (get_rlp p.codec p.decode_account db.state_trie (p.codec.keccak256 address))
        "Invalid encoded state trie value"

unfoldable pub code_by_hash : StateDb → B256 → Outcome Bytes
code_by_hash db hash = or_panic (db.contracts hash)

unfoldable pub block_hash : StateDb → ℕ → Outcome B256
block_hash db number = or_panic (db.block_hashes number)

unfoldable pub storage_trie : StateDb → B256 → Option MerkleTrie
storage_trie db root = db.storage_tries root

-- `WrapStateDb`: the database as revm uses it, with the storage tries of the accounts seen
pub record WrapStateDb (H : Type 0) : Type 0 where
  pub inner : StateDb
  pub header : Sealed H
  pub account_storage : Address → Option (Option MerkleTrie)

abbrev pub names_block : Option B256 → B256 → Bool
names_block none seal = false
names_block (some hash) seal = bytes_eq hash seal

module _ (p : Platform) where
  -- the value of a slot in the trie linked to an address
  unfoldable pub read_slot : Option MerkleTrie → ℕ → Outcome ℕ
  unfolding to_be_bytes
  read_slot none index = ok 0
  read_slot (some storage) index = do
    value ←
        expect (get_rlp p.codec p.decode_u256 storage (p.codec.keccak256 (to_be_bytes 32 index)))
          "Invalid encoded storage value"
    ok (or_default 0 value)

  unfoldable pub keeps_log : Filter → Log → Bool
  keeps_log filter log = p.filter_address filter log.address && p.filter_topics filter log.topics

  unfoldable pub filter_logs : Filter → List Log → List Log
  unfolding keeps_log
  filter_logs filter [] = []
  filter_logs filter (log ∷ logs) =
      let rest = filter_logs filter logs in if keeps_log filter log then log ∷ rest else rest

  -- the logs of the block, or the proof by its bloom that none is asked for
  unfoldable pub select_logs : Bytes → Filter → Option (List Log) → Outcome (List Log)
  unfolding filter_logs matches_filter
  select_logs bloom filter (some logs) = ok (filter_logs filter logs)
  select_logs bloom filter none = do
    assert (not (matches_filter p bloom filter)) "No logs for matching filter"
    ok []

module _ {H : Type 0} where
  unfoldable pub wrap : StateDb → Sealed H → WrapStateDb H
  wrap inner header = record { inner = inner; header = header; account_storage = λ a. none }

  -- `account_storage.insert(address, storage)`
  unfoldable pub link : WrapStateDb H → Address → Option MerkleTrie → WrapStateDb H
  unfolding insert
  link db address storage = record db {
    account_storage = insert db.account_storage address storage;
  }

  -- the account's storage trie is linked to its address, if there is one
  unfoldable pub link_storage : WrapStateDb H → Address → Option MerkleTrie → WrapStateDb H
  unfolding link
  link_storage db address none = db
  link_storage db address (some trie) = link db address (some trie)

  unfoldable pub seen :
      WrapStateDb H → Address → Option StateAccount → Option AccountInfo × WrapStateDb H
  unfolding link_storage storage_trie
  seen db address none = (none, link db address none)
  seen db address (some account) = (
    some (record {
      balance = account.balance;
      nonce = account.nonce;
      code_hash = account.code_hash;
    }),
    link_storage db address (storage_trie db.inner account.storage_root),
  )

  module _ (p : Platform) where
    unfoldable pub basic : WrapStateDb H → Address → Outcome (Option AccountInfo × WrapStateDb H)
    unfolding seen account
    basic db address = do found ← account p db.inner address; ok (seen db address found)

    unfoldable pub storage : WrapStateDb H → Address → ℕ → Outcome ℕ
    unfolding read_slot
    storage db address index = do
      linked ← or_panic (db.account_storage address)
      read_slot p linked index

    unfoldable pub logs : EvmBlockHeader H → WrapStateDb H → Filter → Outcome (List Log)
    unfolding select_logs
    logs ops db filter = do
      assert (names_block filter.block_hash db.header.seal) "assertion `left == right` failed"
      select_logs p (ops.logs_bloom db.header.inner) filter db.inner.logs
