-- ===== src/Host/Proof/Requests.antt =====
-- crates/steel/src/host/db/proof.rs, the methods of a `ProofDb` over a node: the proofs of all that
-- was recorded.
use steel.Prelude.{
  ℕ, zero, suc, ◌-◌, Bytes, B256, Address, Bool, true, false, Option, none, some, List, [], ◌∷◌,
  ◌++◌, ◌&&◌, ◌||◌, not, ltb, leb, if◌then◌else◌, bytes_eq,
}
use steel.Prelude.Maps.{HashMap, HashSet, lookup, insert, values}
use steel.Outcome.{Outcome, ok, assert, guard, message, ◌>>=◌, ◌>>◌}
use steel.Codec.{Codec}
use steel.Platform.{Platform, StateAccount, Filter}
use steel.Mpt.Trie.{MerkleTrie, from_digest, from_rlp_nodes, hydrate_from_rlp_nodes, hash_slow}
use steel.Event.{matches_filter}
use steel.Rpc.{Network, ProofResponse, context, or_err, number}
use steel.Rpc
use steel.Host.Provider
use steel.Host.Provider.{ProviderDb}
use steel.Host.Proof.{
  ProofDb, AccountProof, StorageProof, add_proof, filter_existing_keys, is_some, touch,
}

abbrev pub is_empty : {A : Type 0} → List A → Bool
is_empty [] = true
is_empty (x ∷ xs) = false

module _ {HR RR : Type 0} where
  -- the response must be about the address that was asked for
  unfoldable pub get_proof : ProviderDb HR RR → Address → List B256 → Outcome ProofResponse
  get_proof inner address ks = do
    proof ← context (Provider.get_proof inner address ks) "eth_getProof failed"
    guard (bytes_eq proof.address address) (message "eth_getProof response does not match request")
    ok proof

  module _ (c : Codec) where
    unfoldable pub load :
        ProviderDb HR RR
        → HashMap AccountProof
        → Address
        → List B256
        → Outcome (HashMap AccountProof)
    unfolding get_proof add_proof
    load inner proofs address ks = do
      proof ← get_proof inner address ks
      context (add_proof c proofs proof) "invalid eth_getProof response"

    -- the items of an access list
    unfoldable pub add_access_list :
        ProofDb (ProviderDb HR RR)
        → List (Address × List B256)
        → Outcome (ProofDb (ProviderDb HR RR))
    unfolding load filter_existing_keys lookup
    add_access_list db [] = ok db
    add_access_list db ((address, ks) ∷ items) = do
      proofs ← load db.inner db.proofs address (filter_existing_keys (lookup address db.proofs) ks)
      add_access_list (record db { proofs = proofs }) items

    -- the proof of an account, fetched if there is none yet
    unfoldable pub ensure_proof :
        ProviderDb HR RR
        → HashMap AccountProof
        → Address
        → Option AccountProof
        → Outcome (HashMap AccountProof)
    unfolding load
    ensure_proof inner proofs address none = load inner proofs address []
    ensure_proof inner proofs address (some p) = ok proofs

    unfoldable pub state_account :
        ProofDb (ProviderDb HR RR) → Address → Outcome (StateAccount × ProofDb (ProviderDb HR RR))
    unfolding ensure_proof touch lookup
    state_account db address = do
      proofs ← ensure_proof db.inner db.proofs address (lookup address db.proofs)
      proof ← or_err (lookup address proofs) "called `Option::unwrap()` on a `None` value"
      ok (proof.account, record db { accounts = touch address db.accounts; proofs = proofs })

    -- one account of the first loop: what has no proof yet is asked for
    unfoldable pub fetch_account :
        ProviderDb HR RR → HashMap AccountProof → Address → HashSet → Outcome (HashMap AccountProof)
    unfolding load filter_existing_keys lookup
    fetch_account inner proofs address slots =
        let known = lookup address proofs in
        let missing = filter_existing_keys known slots in
        if is_some known && is_empty missing then ok proofs else load inner proofs address missing

    unfoldable pub fetch_all :
        ProviderDb HR RR → HashMap AccountProof → HashMap HashSet → Outcome (HashMap AccountProof)
    unfolding fetch_account
    fetch_all inner proofs [] = ok proofs
    fetch_all inner proofs ((address, slots) ∷ accounts) = do
      proofs' ← fetch_account inner proofs address slots
      fetch_all inner proofs' accounts

-- the nodes of the account proofs, and those of the proofs of some slots
abbrev pub account_nodes : Option AccountProof → List Bytes
account_nodes none = []
account_nodes (some p) = p.account_proof

abbrev pub slot_nodes : Option StorageProof → List Bytes
slot_nodes none = []
slot_nodes (some p) = p.proof

unfoldable pub state_nodes : HashMap AccountProof → HashMap HashSet → List Bytes
unfolding lookup
state_nodes proofs [] = []
state_nodes proofs ((address, slots) ∷ accounts) =
    account_nodes (lookup address proofs) ++ state_nodes proofs accounts

unfoldable pub storage_nodes : HashMap StorageProof → List B256 → List Bytes
unfolding lookup
storage_nodes proofs [] = []
storage_nodes proofs (k ∷ ks) = slot_nodes (lookup k proofs) ++ storage_nodes proofs ks

module _ (c : Codec) (fuel : ℕ) where
  -- a trie for a new root, or more nodes for a known one
  unfoldable pub build_trie : Option MerkleTrie → List Bytes → Outcome MerkleTrie
  build_trie none nodes = context (from_rlp_nodes c fuel nodes) "invalid storage proof"
  build_trie (some trie) nodes =
      context (hydrate_from_rlp_nodes c fuel trie nodes) "invalid storage proof"

  -- one account of the second loop
  unfoldable pub add_storage_trie :
      HashMap MerkleTrie → AccountProof → HashSet → Outcome (HashMap MerkleTrie)
  unfolding build_trie storage_nodes lookup insert
  add_storage_trie tries proof slots = do
    let root = proof.account.storage_root
    trie ← build_trie (lookup root tries) (storage_nodes proof.storage_proofs slots)
    guard (bytes_eq (hash_slow c trie) root) (message "storage root mismatch")
    ok (insert root trie tries)

  unfoldable pub storage_tries :
      HashMap AccountProof → HashMap MerkleTrie → HashMap HashSet → Outcome (HashMap MerkleTrie)
  unfolding add_storage_trie lookup
  storage_tries proofs tries [] = ok tries
  storage_tries proofs tries ((address, []) ∷ accounts) = storage_tries proofs tries accounts
  storage_tries proofs tries ((address, (slot ∷ slots)) ∷ accounts) = do
    proof ← or_err (lookup address proofs) "called `Option::unwrap()` on a `None` value"
    tries' ← add_storage_trie tries proof (slot ∷ slots)
    storage_tries proofs tries' accounts

unfoldable pub least : ℕ → List ℕ → ℕ
least n [] = n
least n (k ∷ ks) = least (if ltb k n then k else n) ks

-- `any` of the filters
unfoldable pub any_match : Platform → Bytes → List Filter → Bool
unfolding matches_filter
any_match p bloom [] = false
any_match p bloom (f ∷ filters) = matches_filter p bloom f || any_match p bloom filters

module _ {HR RR : Type 0} where
  -- `(first..number).rev()`: the last `count` blocks before `number`
  unfoldable pub fetch_ancestors : ProviderDb HR RR → ℕ → ℕ → Outcome (List HR)
  fetch_ancestors inner zero block_number = ok []
  fetch_ancestors inner (suc count) block_number = do
    response ←
        context (inner.provider.get_block (number (block_number - 1))) "eth_getBlockByNumber failed"
    header ← or_err response "block not found"
    ancestors ← fetch_ancestors inner count (block_number - 1)
    ok (header ∷ ancestors)

  unfoldable pub ancestors_from : ProviderDb HR RR → List ℕ → ℕ → Outcome (List HR)
  unfolding fetch_ancestors least
  ancestors_from inner [] block_number = ok []
  ancestors_from inner (n ∷ ns) block_number = do
    assert (leb (least n ns) block_number) "assertion failed: block_hash_min_number <= block_number"
    fetch_ancestors inner (block_number - least n ns) block_number

  unfoldable pub ancestor_proof : ProofDb (ProviderDb HR RR) → ℕ → Outcome (List HR)
  unfolding ancestors_from
  ancestor_proof db block_number = ancestors_from db.inner db.block_hash_numbers block_number

  unfoldable pub fetch_receipts : ProviderDb HR RR → Outcome (Option (List RR))
  fetch_receipts inner = do
    response ← context (inner.provider.get_block_receipts inner.block) "eth_getBlockReceipts failed"
    receipts ← or_err response "block not found"
    ok (some receipts)

module _ {HR RR H R : Type 0} (net : Network HR RR H R) where
  -- the block on which the queries are based
  unfoldable pub db_block : ProviderDb HR RR → Outcome HR
  db_block inner = do
    response ← context (inner.provider.get_block (Rpc.hash inner.block)) "eth_getBlockByHash failed"
    or_err response "block not found"

  module _ (c : Codec) (fuel : ℕ) where
    unfoldable pub recorded_proof :
        ProofDb (ProviderDb HR RR)
        → Outcome ((MerkleTrie × List MerkleTrie) × ProofDb (ProviderDb HR RR))
    unfolding fetch_all state_nodes storage_tries values
    recorded_proof db = do
      proofs ← fetch_all c db.inner db.proofs db.accounts
      state_trie ←
          context (from_rlp_nodes c fuel (state_nodes proofs db.accounts)) "accountProof invalid"
      tries ← storage_tries c fuel proofs [] db.accounts
      ok ((state_trie, values tries), record db { proofs = proofs })

    -- without accounts the root of the block serves as the trie
    unfoldable pub state_proof :
        ProofDb (ProviderDb HR RR)
        → Outcome ((MerkleTrie × List MerkleTrie) × ProofDb (ProviderDb HR RR))
    unfolding recorded_proof db_block
    state_proof db = do
      guard
          (not (is_empty db.accounts)
            || (not (is_empty db.block_hash_numbers) || not (is_empty db.log_filters)))
          (message "no accounts accessed: use Contract::preflight")
      if is_empty db.accounts
          then (do header ← db_block db.inner; ok ((from_digest (net.state_root header), []), db))
          else recorded_proof db

  unfoldable pub receipt_proof : Platform → ProofDb (ProviderDb HR RR) → Outcome (Option (List RR))
  unfolding any_match fetch_receipts db_block
  receipt_proof p db = if is_empty db.log_filters then ok none else (do
    header ← db_block db.inner
    if any_match p (net.logs_bloom header) db.log_filters then fetch_receipts db.inner else ok none)
