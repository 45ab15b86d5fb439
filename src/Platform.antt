-- ===== src/Platform.antt =====
-- What the databases use of alloy and revm, as parameters: the RLP of an account and of a storage
-- value, and the filters of logs.
use steel.Prelude.{ℕ, Bytes, B256, Address, Bool, List, Option}
use steel.Outcome.{Outcome}
use steel.Codec.{Codec}

-- `alloy_consensus::TrieAccount`, in the crate `StateAccount`
pub record StateAccount : Type 0 where
  pub nonce : ℕ
  pub balance : ℕ
  pub storage_root : B256
  pub code_hash : B256

-- `revm::state::AccountInfo`
pub record AccountInfo : Type 0 where
  pub balance : ℕ
  pub nonce : ℕ
  pub code_hash : B256

-- `alloy_primitives::Log`
pub record Log : Type 0 where
  pub address : Address
  pub topics : List B256
  pub payload : Bytes

-- `alloy_rpc_types::Filter`, as far as the crate sets it: an empty list matches everything
pub record Filter : Type 0 where
  pub block_hash : Option B256
  pub address : List Address
  pub topics : List (List B256)

pub record Platform : Type 1 where
  pub codec : Codec
  -- `StateAccount::decode`, and `StateAccount::default()`
  pub decode_account : Bytes → Outcome (StateAccount × Bytes)
  pub default_account : StateAccount
  -- `AccountInfo::default()`
  pub default_info : AccountInfo
  -- `U256::decode`
  pub decode_u256 : Bytes → Outcome (ℕ × Bytes)
  -- `FilteredParams::filter_address` and `filter_topics` of a filter, at a log
  pub filter_address : Filter → Address → Bool
  pub filter_topics : Filter → List B256 → Bool
  -- `FilteredParams::matches_address` and `matches_topics` of a bloom, at the blooms of the filter
  pub matches_address : Bytes → List Address → Bool
  pub matches_topics : Bytes → List (List B256) → Bool
  -- `ordered_trie_root_with_encoder` of the EIP-2718 encodings of the receipts
  pub ordered_trie_root : List Bytes → B256
