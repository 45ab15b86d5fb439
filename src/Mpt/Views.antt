-- ===== src/Mpt/Views.antt =====
-- What the RLP library reads from the encoding of a node, and from a reference to one.
use steel.Prelude.{◌≡◌, subst, Bytes, B256, [], ◌∷◌, ◌++◌, length, leb, Bool-cases, inl, inr}
use steel.Outcome.{ok}
use steel.Codec.{Codec}
use steel.Mpt.Node.{
  Node, Children, null, leaf, extension, branch, digest, no_more, vacant, child, IsNode, AreNodes,
}
use steel.Mpt.Encode.{NodeRef, encode, rlp_encoded, from_node}
use steel.Mpt.Laws.{Laws, IsItem, AreItems, string_item, list_item, no_items, next_item}
use steel.Mpt.Items.{
  payload, branch_items, rlp_encoded-leaf, rlp_encoded-extension, rlp_encoded-branch,
}

module _ (c : Codec) (laws : Laws c) where
  empty-IsItem : IsItem c (0x80 ∷ [])
  empty-IsItem = subst (IsItem c) laws.encode_string-empty (string_item [])

  null-IsItem : IsItem c (rlp_encoded c null)
  unfolding rlp_encoded
  null-IsItem = empty-IsItem

  digest-IsItem : (d : B256) → IsItem c (rlp_encoded c (digest d))
  unfolding rlp_encoded
  digest-IsItem d = string_item d

  vacant-IsItem : IsItem c (encode c NodeRef.empty)
  unfolding encode
  vacant-IsItem = empty-IsItem

  node-IsItem : (rlp : Bytes) → IsItem c rlp → IsItem c (encode c (NodeRef.node rlp))
  unfolding encode
  node-IsItem rlp is = elim (Bool-cases (leb 32 (length rlp))) [
    | inl e ↦ rw e (string_item (c.keccak256 rlp))
    | inr e ↦ rw e is
  ]

  -- A reference is an item where the encoding of the node is one.
  ref-IsItem : (n : Node) → IsItem c (rlp_encoded c n) → IsItem c (encode c (from_node c n))
  unfolding from_node
  ref-IsItem null is = vacant-IsItem
  ref-IsItem (digest d) is = unfold encode in string_item d
  ref-IsItem (leaf x v) is = node-IsItem _ is
  ref-IsItem (extension x n) is = node-IsItem _ is
  ref-IsItem (branch cs) is = node-IsItem _ is

  mutual
    unfolding IsNode

    pub rlp-IsItem : (n : Node) → IsNode n → IsItem c (rlp_encoded c n)
    rlp-IsItem null h = null-IsItem
    rlp-IsItem (leaf x v) h =
        rw (rlp_encoded-leaf c laws x v)
          (list_item (next_item (string_item _) (next_item (string_item _) no_items)))
    rlp-IsItem (extension x n) h = rw (rlp_encoded-extension c laws x n h.2) (
        list_item
          (next_item (string_item _) (next_item (ref-IsItem n (rlp-IsItem n h.2)) no_items)))
    rlp-IsItem (branch cs) h =
        rw (rlp_encoded-branch c laws cs h.1) (list_item (branch-AreItems cs h.1))
    rlp-IsItem (digest d) h = digest-IsItem d

    pub branch-AreItems : (cs : Children) → AreNodes cs → AreItems c (branch_items c cs)
    branch-AreItems no_more h = next_item empty-IsItem no_items
    branch-AreItems (vacant cs) h = next_item vacant-IsItem (branch-AreItems cs h)
    branch-AreItems (child n cs) h =
        next_item (ref-IsItem n (rlp-IsItem n h.1)) (branch-AreItems cs h.2)

  -- The library reads the encoding of a node as the string or the list of items that it is.
  pub decode_raw-rlp_encoded :
      (n : Node) (rest : Bytes)
      → IsNode n
      → c.decode_raw (rlp_encoded c n ++ rest) ≡ ok (payload c n, rest)
  unfolding IsNode
  decode_raw-rlp_encoded null rest h =
      unfold rlp_encoded in rw laws.encode_string-empty at (laws.decode_raw-string [] rest)
  decode_raw-rlp_encoded (digest d) rest h = unfold rlp_encoded in laws.decode_raw-string d rest
  decode_raw-rlp_encoded (leaf x v) rest h =
      rw (rlp_encoded-leaf c laws x v) (
        laws.decode_raw-list _ rest
          (next_item (string_item _) (next_item (string_item _) no_items)))
  decode_raw-rlp_encoded (extension x n) rest h = rw (rlp_encoded-extension c laws x n h.2) (
      laws.decode_raw-list _ rest
        (next_item (string_item _) (next_item (ref-IsItem n (rlp-IsItem n h.2)) no_items)))
  decode_raw-rlp_encoded (branch cs) rest h =
      rw (rlp_encoded-branch c laws cs h.1) (laws.decode_raw-list _ rest (branch-AreItems cs h.1))

  pub payload_eq :
      (n m : Node)
      → IsNode n
      → IsNode m
      → rlp_encoded c n ≡ rlp_encoded c m
      → payload c n ≡ payload c m
  payload_eq n m hn hm e = cc (decode_raw-rlp_encoded n [] hn, decode_raw-rlp_encoded m [] hm)

  pub encode_string-injective : (x y : Bytes) → c.encode_string x ≡ c.encode_string y → x ≡ y
  encode_string-injective x y e = cc (laws.decode_bytes-string x [], laws.decode_bytes-string y [])
