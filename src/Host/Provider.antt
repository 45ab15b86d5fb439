-- ===== src/Host/Provider.antt =====
-- crates/steel/src/host/db/provider.rs: the database that a node serves, at one block.
use steel.Prelude.{
  ℕ, zero, suc, ◌-◌, Bytes, B256, Address, Bool, true, false, Option, none, some, List, [], ◌∷◌,
  ◌++◌, ◌&&◌, ◌==◌, ltb, if◌then◌else◌, bytes_eq, length,
}
use steel.Prelude.Maps.{HashMap, lookup, insert, all_equal}
use steel.Outcome.{Outcome, ok, panic, assert, guard, message, ◌>>=◌, ◌>>◌}
use steel.Codec.{Codec}
use steel.Platform.{AccountInfo, Filter, Log}
use steel.Rpc.{Provider, Network, ProofResponse, context, or_err, number}
use steel.State.{names_block}
use steel.Host.Database.{Database}

pub record ProviderDb (HR RR : Type 0) : Type 0 where
  pub provider : Provider HR RR
  -- `provider_config.eip1186_proof_chunk_size`
  pub chunk_size : ℕ
  pub block : B256
  -- the byte codes by their hash
  pub contracts : HashMap Bytes

abbrev pub default_chunk_size : ℕ
default_chunk_size = 1000

module _ {HR RR : Type 0} where
  unfoldable pub new : Provider HR RR → ℕ → B256 → ProviderDb HR RR
  new provider chunk_size block_hash = record {
    provider = provider;
    chunk_size = chunk_size;
    block = block_hash;
    contracts = [];
  }

-- `sort_unstable` of the keys: their order is that of their bytes
unfoldable pub bytes_le : Bytes → Bytes → Bool
bytes_le [] y = true
bytes_le (a ∷ x) [] = false
bytes_le (a ∷ x) (b ∷ y) = let rest = bytes_le x y in if a == b then rest else ltb a b

unfoldable pub insert_sorted : B256 → List B256 → List B256
unfolding bytes_le
insert_sorted k [] = k ∷ []
insert_sorted k (j ∷ ks) = if bytes_le k j then k ∷ j ∷ ks else j ∷ insert_sorted k ks

unfoldable pub sort : List B256 → List B256
unfolding insert_sorted
sort [] = []
sort (k ∷ ks) = insert_sorted k (sort ks)

-- `chunks(size)`: the chunk that has room for `room` more keys, and the chunks after it
unfoldable pub split_chunks : ℕ → ℕ → List B256 → List B256 × List (List B256)
split_chunks size room [] = ([], [])
split_chunks size zero (k ∷ ks) =
    let (chunk, rest) = split_chunks size (size - 1) ks in ([], (k ∷ chunk) ∷ rest)
split_chunks size (suc room) (k ∷ ks) =
    let (chunk, rest) = split_chunks size room ks in (k ∷ chunk, rest)

-- a `chunks` of size 0 panics
unfoldable pub chunks : ℕ → List B256 → Outcome (List (List B256))
unfolding split_chunks
chunks zero ks = panic "chunk size must be non-zero"
chunks (suc n) [] = ok []
chunks (suc n) (k ∷ ks) = let (chunk, rest) = split_chunks (suc n) n ks in ok ((k ∷ chunk) ∷ rest)

-- `iter.next().unwrap_or_default()`, and the chunks that are left
abbrev pub first_chunk : List (List B256) → List B256
first_chunk [] = []
first_chunk (c ∷ cs) = c

abbrev pub other_chunks : List (List B256) → List (List B256)
other_chunks [] = []
other_chunks (c ∷ cs) = cs

module _ {HR RR : Type 0} where
  unfoldable pub request : ProviderDb HR RR → Address → List B256 → Outcome ProofResponse
  request db address ks = context (db.provider.get_proof address ks db.block) "eth_getProof failed"

  -- the loop over the chunks after the first
  unfoldable pub extend_proof :
      ProviderDb HR RR → Address → ProofResponse → List (List B256) → Outcome ProofResponse
  unfolding request all_equal
  extend_proof db address answer [] = ok answer
  extend_proof db address answer (ks ∷ rest) = do
    proof ← request db address ks
    guard (all_equal proof.account_proof answer.account_proof)
        (message "account_proof not consistent between calls")
    extend_proof db address
        (record answer { storage_proof = answer.storage_proof ++ proof.storage_proof }) rest

  unfoldable pub get_proof : ProviderDb HR RR → Address → List B256 → Outcome ProofResponse
  unfolding sort chunks extend_proof request
  get_proof db address ks = do
    parts ← chunks db.chunk_size (sort ks)
    answer ← request db address (first_chunk parts)
    extend_proof db address answer (other_chunks parts)

-- the code hash of an account without code
abbrev pub keccak_empty : Codec → B256
keccak_empty c = c.keccak256 []

-- `expect` of a cached code
unfoldable pub cached : Option Bytes → Outcome Bytes
cached none = panic "`basic` must be called first for the corresponding account"
cached (some code) = ok code

module _ {HR RR : Type 0} (c : Codec) where
  -- an account with no nonce, no balance and no code does not exist for the EVM
  unfoldable pub index_code :
      ProviderDb HR RR → ℕ → ℕ → Bytes → Option AccountInfo × ProviderDb HR RR
  unfolding insert
  index_code db nonce balance code =
      if nonce == 0 && (balance == 0 && length code == 0) then (none, db) else (
        some (record { balance = balance; nonce = nonce; code_hash = c.keccak256 code }),
        record db { contracts = insert (c.keccak256 code) code db.contracts },
      )

  unfoldable pub basic :
      ProviderDb HR RR → Address → Outcome (Option AccountInfo × ProviderDb HR RR)
  unfolding index_code
  basic db address = do
    nonce ←
        context (db.provider.get_transaction_count address db.block)
          "eth_getTransactionCount failed"
    balance ← context (db.provider.get_balance address db.block) "eth_getBalance failed"
    code ← context (db.provider.get_code_at address db.block) "eth_getCode failed"
    ok (index_code db nonce balance code)

  unfoldable pub code_by_hash : ProviderDb HR RR → B256 → Outcome (Bytes × ProviderDb HR RR)
  unfolding lookup cached
  code_by_hash db code_hash =
      if bytes_eq code_hash (keccak_empty c)
      then ok ([], db)
      else (do code ← cached (lookup code_hash db.contracts); ok (code, db))

module _ {HR RR : Type 0} where
  unfoldable pub storage : ProviderDb HR RR → Address → ℕ → Outcome (ℕ × ProviderDb HR RR)
  storage db address index = do
    v ← context (db.provider.get_storage_at address index db.block) "eth_getStorageAt failed"
    ok (v, db)

  unfoldable pub block_hash :
      {H R : Type 0} → Network HR RR H R → ProviderDb HR RR → ℕ → Outcome (B256 × ProviderDb HR RR)
  block_hash net db n = do
    response ← context (db.provider.get_block (number n)) "eth_getBlockByNumber failed"
    header ← or_err response "block not found"
    ok (net.hash header, db)

  unfoldable pub logs : ProviderDb HR RR → Filter → Outcome (List Log × ProviderDb HR RR)
  logs db filter = do
    assert (names_block filter.block_hash db.block) "assertion `left == right` failed"
    rpc_logs ← context (db.provider.get_logs filter) "eth_getLogs failed"
    ok (rpc_logs, db)

-- the database by its operations
unfoldable pub provider_db :
    {HR RR H R : Type 0} → Codec → Network HR RR H R → Database (ProviderDb HR RR)
provider_db c net = record {
  basic = basic c;
  code_by_hash = code_by_hash c;
  storage = storage;
  block_hash = block_hash net;
  logs = logs;
}
