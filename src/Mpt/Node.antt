-- ===== src/Mpt/Node.antt =====
-- The nodes of the trie and the lookup of a key (`Node::get`, `Node::size`).
use steel.Prelude.{
  ℕ, zero, suc, ◌+◌, ◌<◌, Bytes, B256, Bool, true, false, Option, none, some, [], ◌∷◌, ◌≡◌, ◌==◌,
  bytes_eq, if◌then◌else◌, length, All,
}
use steel.Outcome.{Outcome, ok, panic}
use steel.Codec.{Nibbles}

-- `Children` is the array `[Option<Box<Node>>; 16]` of a branch: `vacant` is an entry `None`, and
-- `child` an entry `Some`. That it has 16 entries is part of `IsNode`.
mutual
  pub data Node : Type 0 where
    null : Node
    leaf : Nibbles → Bytes → Node
    extension : Nibbles → Node → Node
    branch : Children → Node
    digest : B256 → Node

  pub data Children : Type 0 where
    no_more : Children
    vacant : Children → Children
    child : Node → Children → Children

-- `<[u8]>::strip_prefix`
unfoldable pub strip_prefix : Nibbles → Nibbles → Option Nibbles
strip_prefix [] key = some key
strip_prefix (p ∷ prefix) [] = none
strip_prefix (p ∷ prefix) (k ∷ key) =
    let rest = strip_prefix prefix key in if p == k then rest else none

-- `get_child children i key` is `children[i].and_then(|node| node.get(key))`.
unfoldable mutual
  pub get : Node → Nibbles → Outcome (Option Bytes)
  get null key = ok none
  get (leaf prefix value) key = ok (if bytes_eq prefix key then some value else none)
  get (extension prefix node) key = elim (strip_prefix prefix key) [
    | none ↦ ok none
    | some remaining ↦ get node remaining
  ]
  get (branch children) [] = ok none
  get (branch children) (i ∷ remaining) = get_child children i remaining
  get (digest d) key = panic "MPT: Unresolved node access"

  pub get_child : Children → ℕ → Nibbles → Outcome (Option Bytes)
  get_child no_more i key = panic "index out of bounds"
  get_child (vacant children) zero key = ok none
  get_child (child node children) zero key = get node key
  get_child (vacant children) (suc i) key = get_child children i key
  get_child (child node children) (suc i) key = get_child children i key

unfoldable mutual
  pub size : Node → ℕ
  size null = 0
  size (leaf prefix value) = 1
  size (extension prefix node) = 1 + size node
  size (branch children) = 1 + size_children children
  size (digest d) = 0

  pub size_children : Children → ℕ
  size_children no_more = 0
  size_children (vacant children) = size_children children
  size_children (child node children) = size node + size_children children

abbrev pub is_null : Node → Bool
is_null null = true
is_null _ = false

abbrev pub is_digest : Node → Bool
is_digest (digest d) = true
is_digest _ = false

abbrev pub count : Children → ℕ
count no_more = 0
count (vacant children) = suc (count children)
count (child node children) = suc (count children)

abbrev pub IsNibble : ℕ → Type 0
IsNibble n = n < 16

-- A well-formed node: an array of 16 entries in a branch, half bytes in the paths, digests of 32
-- bytes, and no `Null` below another node. The types ensure the arrays and the digests; a node that
-- is deserialized as part of an input is checked for none of the rest.
unfoldable mutual
  pub IsNode : Node → Type 0
  IsNode null = Unit
  IsNode (leaf prefix value) = All IsNibble prefix
  IsNode (extension prefix node) = All IsNibble prefix × (is_null node ≡ false) × IsNode node
  IsNode (branch children) = (count children ≡ 16) × AreNodes children
  IsNode (digest d) = length d ≡ 32

  pub AreNodes : Children → Type 0
  AreNodes no_more = Unit
  AreNodes (vacant children) = AreNodes children
  AreNodes (child node children) = (is_null node ≡ false) × IsNode node × AreNodes children
