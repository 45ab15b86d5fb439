-- ===== src/Examples/Data.antt =====
-- The inputs that the examples share: small tries under the toy codec, a platform and a chain.
use steel.Prelude.{ℕ, ◌-◌, ◌%◌, Bytes, true, false, [], ◌∷◌, leb, map}
use steel.Outcome.{ok}
use steel.Header.{EvmBlockHeader, EvmSpecId}
use steel.Words.{to_be_bytes}
use steel.Platform.{Platform, StateAccount}
use steel.Mpt.Node.{Node, Children, leaf, branch, digest, no_more, vacant, child}
use steel.Mpt.Encode.{rlp_encoded}
use steel.Mpt.Trie.{MerkleTrie, hash_slow}
use steel.Mpt.Toy.{toy, toy_keccak256, weigh, zeros}
use steel.Config.Spec.{ChainSpec, block}
use steel.Block.{Receipts}
use steel.History.HistoryStorage

abbrev pub vacant_rest : Children
vacant_rest = vacant (
    vacant (
      vacant (
        vacant (
          vacant (vacant (vacant (vacant (vacant (vacant (vacant (vacant (vacant no_more))))))))))))

abbrev pub first_leaf : Node
first_leaf = leaf (5 ∷ []) zeros

abbrev pub second_leaf : Node
second_leaf = leaf (6 ∷ []) zeros

abbrev pub full_trie : MerkleTrie
full_trie = record { root = branch (vacant (child first_leaf (child second_leaf vacant_rest))) }

-- the same trie without its second leaf
abbrev pub sparse_trie : MerkleTrie
sparse_trie = record {
  root = branch (
      vacant (
        child first_leaf
          (child (digest (toy_keccak256 (rlp_encoded toy second_leaf))) vacant_rest)));
}

-- a trie with one key
abbrev pub single : Bytes → Bytes → MerkleTrie
single key value = record { root = leaf (map (λ x. x % 16) (toy_keccak256 key)) value }

-- slot 5 holds 9
abbrev pub storage_example : MerkleTrie
storage_example = single (to_be_bytes 32 5) (9 ∷ [])

abbrev pub account_example : StateAccount
account_example = record {
  nonce = 1;
  balance = 7;
  storage_root = hash_slow toy storage_example;
  code_hash = HistoryStorage.code_hash;
}

abbrev pub state_example : MerkleTrie
state_example = single HistoryStorage.address (1 ∷ [])

abbrev pub platform : Platform
platform = record {
  codec = toy;
  decode_account = λ bytes. ok (account_example, []);
  default_account = account_example;
  default_info = record { balance = 0; nonce = 0; code_hash = [] };
  decode_u256 = λ bytes. ok (weigh bytes - 1, []);
  filter_address = λ filter address. true;
  filter_topics = λ filter topics. false;
  matches_address = λ bloom addresses. true;
  matches_topics = λ bloom topics. false;
  ordered_trie_root = λ encodings. zeros;
}

-- A header is its number.
abbrev pub ops : EvmBlockHeader ℕ
ops = record {
  hash_slow = λ n. (n ∷ zeros);
  parent_hash = λ n. ((n - 1) ∷ zeros);
  number = λ n. n;
  timestamp = λ n. n;
  state_root = λ n. hash_slow toy state_example;
  receipts_root = λ n. zeros;
  logs_bloom = λ n. [];
}

-- A fork is its rank: EIP-4788 from 1 on, and EIP-2935 from 2 on.
abbrev pub ids : EvmSpecId ℕ
ids = record {
  rank = λ s. s;
  has_eip4788 = λ s. leb 1 s;
  has_eip2935 = λ s. leb 2 s;
  to_u32 = λ s. s;
}

abbrev pub receipts : Receipts (Unit {0})
receipts = record { encode_2718 = λ r. []; into_logs = λ r. [] }

abbrev pub chain : ChainSpec ℕ
chain = record { chain_id = 1; forks = (0, block 0) ∷ (1, block 100) ∷ [] }

-- the fork 2 from the first block on
abbrev pub late_chain : ChainSpec ℕ
late_chain = record { chain_id = 1; forks = (2, block 0) ∷ [] }
