-- ===== src/Mpt/Trie.antt =====
-- `MerkleTrie`: a root node, its hash, and the tries read from RLP encoded nodes.
use steel.Prelude.{ℕ, Bytes, B256, Option, none, some, List, [], ◌∷◌, bytes_eq, if◌then◌else◌}
use steel.Outcome.{Outcome, ok, ◌>>=◌}
use steel.Codec.{Codec}
use steel.Mpt.Node
use steel.Mpt.Node.{Node, null, leaf, extension, branch, digest}
use steel.Mpt.Encode.{rlp_encoded}
use steel.Mpt.Decode.{parse_node}
use steel.Mpt.Resolve.{NodeMap, resolve_digests}

-- `keccak256(RLP(""))`
abbrev pub empty_root_hash : B256
empty_root_hash =
    0x56 ∷ 0xe8 ∷ 0x1f ∷ 0x17 ∷ 0x1b ∷ 0xcc ∷ 0x55 ∷ 0xa6 ∷ 0xff ∷ 0x83 ∷ 0x45 ∷ 0xe6 ∷ 0x92 ∷ 0xc0
    ∷ 0xf8 ∷ 0x6e ∷ 0x5b ∷ 0x48 ∷ 0xe0 ∷ 0x1b ∷ 0x99 ∷ 0x6c ∷ 0xad ∷ 0xc0 ∷ 0x01 ∷ 0x62 ∷ 0x2f
    ∷ 0xb5 ∷ 0xe3 ∷ 0x63 ∷ 0xb4 ∷ 0x21 ∷ []

pub record MerkleTrie : Type 0 where
  pub root : Node

-- `MerkleTrie::default()`
abbrev pub empty_trie : MerkleTrie
empty_trie = record { root = null }

unfoldable pub insert : NodeMap → B256 → Node → NodeMap
insert m hash node d = if bytes_eq hash d then some node else m d

-- `if let Some(hash) = hash { nodes_by_hash.insert(hash, node) }`
unfoldable pub insert_hashed : NodeMap → Option B256 → Node → NodeMap
unfolding insert
insert_hashed m none node = m
insert_hashed m (some hash) node = insert m hash node

-- `Option::unwrap_or_default`
abbrev pub first_or_null : Option Node → Node
first_or_null none = null
first_or_null (some node) = node

abbrev pub no_nodes : NodeMap
no_nodes d = none

unfoldable pub from_digest : B256 → MerkleTrie
from_digest d = if bytes_eq d empty_root_hash then empty_trie else record { root = digest d }

unfoldable pub size : MerkleTrie → ℕ
size trie = Node.size trie.root

module _ (c : Codec) where
  unfoldable pub get : MerkleTrie → Bytes → Outcome (Option Bytes)
  get trie key = Node.get trie.root (c.unpack key)

  -- `decode` is the `Decodable` instance of the type asked for.
  unfoldable pub get_rlp :
      {T : Type 0} → (Bytes → Outcome (T × Bytes)) → MerkleTrie → Bytes → Outcome (Option T)
  unfolding get
  get_rlp decode trie key = do
    found ← get trie key
    elim found [
      | none ↦ ok none
      | some bytes ↦ (do value ← c.decode_exact decode bytes; ok (some value))
    ]

  unfoldable pub node_hash : Node → B256
  node_hash null = empty_root_hash
  node_hash (digest d) = d
  node_hash (leaf prefix value) = c.keccak256 (rlp_encoded c (leaf prefix value))
  node_hash (extension prefix n) = c.keccak256 (rlp_encoded c (extension prefix n))
  node_hash (branch children) = c.keccak256 (rlp_encoded c (branch children))

  unfoldable pub hash_slow : MerkleTrie → B256
  unfolding node_hash
  hash_slow trie = node_hash trie.root

  -- the loop over the nodes of `hydrate_from_rlp_nodes`
  unfoldable pub collect_nodes : NodeMap → List Bytes → Outcome NodeMap
  unfolding insert_hashed
  collect_nodes m [] = ok m
  collect_nodes m (bytes ∷ nodes) = do
    (hash, node) ← parse_node c bytes
    collect_nodes (insert_hashed m hash node) nodes

  unfoldable pub hydrate_from_rlp_nodes : ℕ → MerkleTrie → List Bytes → Outcome MerkleTrie
  unfolding collect_nodes
  hydrate_from_rlp_nodes fuel trie nodes = do
    nodes_by_hash ← collect_nodes no_nodes nodes
    root ← resolve_digests nodes_by_hash fuel trie.root
    ok (record { root = root })

  -- The loop of `from_rlp_nodes` keeps the first node too.
  unfoldable pub collect_with_root :
      Option Node → NodeMap → List Bytes → Outcome (Option Node × NodeMap)
  unfolding insert_hashed
  collect_with_root root m [] = ok (root, m)
  collect_with_root root m (bytes ∷ nodes) = do
    (hash, node) ← parse_node c bytes
    collect_with_root (elim root [ none ↦ some node | some first ↦ some first ])
        (insert_hashed m hash node) nodes

  unfoldable pub from_rlp_nodes : ℕ → List Bytes → Outcome MerkleTrie
  unfolding collect_with_root
  from_rlp_nodes fuel nodes = do
    (root, nodes_by_hash) ← collect_with_root none no_nodes nodes
    root' ← resolve_digests nodes_by_hash fuel (first_or_null root)
    ok (record { root = root' })
