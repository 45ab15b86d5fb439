-- ===== src/Mpt/Items.antt =====
-- The encoding of a node read back as the RLP library reads it: a string, or the list of its items.
use steel.Prelude.{
  ℕ, ◌+◌, ◌≡◌, refl, sym, ap₂, suc, Bytes, true, false, List, [], ◌∷◌, ◌++◌, arith, length,
  length-append, append-nil, append_assoc, leb, Bool-cases, inl, inr,
}
use steel.Codec.{Codec, Nibbles, PayloadView, string, list}
use steel.Mpt.Node.{
  Node, Children, null, leaf, extension, branch, digest, no_more, vacant, child, is_null, is_digest,
  count, IsNode, AreNodes,
}
use steel.Mpt.Encode.{
  NodeRef, encode, ref_length, encode_refs, refs_length, rlp_encoded, child_refs, from_node, as_ref,
  encode_list_header,
}
use steel.Mpt.Laws.{Laws, concat, encode_list}

module _ (c : Codec) where
  -- The items of a branch: the references to its children, and the missing value.
  abbrev pub branch_items : Children → List Bytes
  branch_items no_more = (0x80 ∷ []) ∷ []
  branch_items (vacant cs) = encode c NodeRef.empty ∷ branch_items cs
  branch_items (child n cs) = encode c (from_node c n) ∷ branch_items cs

  abbrev pub payload : Node → PayloadView
  payload null = string []
  payload (leaf prefix value) =
      list (c.encode_string (c.encode_path_leaf prefix true) ∷ c.encode_string value ∷ [])
  payload (extension prefix n) =
      list (c.encode_string (c.encode_path_leaf prefix false) ∷ encode c (from_node c n) ∷ [])
  payload (branch cs) = list (branch_items cs)
  payload (digest d) = string d

  pub length-branch_items : (cs : Children) → length (branch_items cs) ≡ count cs + 1
  length-branch_items no_more = omega arith
  length-branch_items (vacant cs) = omega (arith, length-branch_items cs)
  length-branch_items (child n cs) = omega (arith, length-branch_items cs)

  pub from_node-plain :
      (n : Node)
      → is_null n ≡ false
      → is_digest n ≡ false
      → from_node c n ≡ NodeRef.node (rlp_encoded c n)
  unfolding from_node
  from_node-plain null p q = cc
  from_node-plain (digest d) p q = cc
  from_node-plain (leaf x v) p q = refl
  from_node-plain (extension x n) p q = refl
  from_node-plain (branch cs) p q = refl

  concat-branch_items :
      (cs : Children) → concat (branch_items cs) ≡ encode_refs c (child_refs c cs) ++ 0x80 ∷ []
  unfolding encode_refs rlp_encoded from_node
  concat-branch_items no_more = refl
  concat-branch_items (vacant cs) = rw (concat-branch_items cs, append_assoc)
  concat-branch_items (child n cs) = rw (concat-branch_items cs, append_assoc)

  module _ (laws : Laws c) where
    -- `NodeRef::length` is the length of what `NodeRef::encode` writes.
    pub length-encode_node :
        (rlp : Bytes) → ref_length c (NodeRef.node rlp) ≡ length (encode c (NodeRef.node rlp))
    unfolding encode ref_length
    length-encode_node rlp = elim (Bool-cases (leb 32 (length rlp))) [
      | inl e ↦ rw e (sym (laws.length-encode_string_digest _ (laws.length-keccak256 rlp)))
      | inr e ↦ rw e refl
    ]

    pub ref_length-from_node :
        (n : Node) → IsNode n → ref_length c (from_node c n) ≡ length (encode c (from_node c n))
    unfolding from_node IsNode
    ref_length-from_node null h = unfold ref_length encode in refl
    ref_length-from_node (digest d) h =
        unfold ref_length encode in sym (laws.length-encode_string_digest d h)
    ref_length-from_node (leaf x v) h = length-encode_node _
    ref_length-from_node (extension x n) h = length-encode_node _
    ref_length-from_node (branch cs) h = length-encode_node _

    one_more : {m n : ℕ} → m ≡ n → ref_length c NodeRef.empty + m ≡ suc n
    unfolding ref_length
    one_more e = omega arith

    pub refs_length-child_refs :
        (cs : Children)
        → AreNodes cs
        → refs_length c (child_refs c cs) ≡ length (encode_refs c (child_refs c cs))
    unfolding refs_length encode_refs encode rlp_encoded IsNode from_node
    refs_length-child_refs no_more h = refl
    refs_length-child_refs (vacant cs) h = one_more (refs_length-child_refs cs h)
    refs_length-child_refs (child n cs) h = omega (
      arith,
      refs_length-child_refs cs h.2,
      ref_length-from_node n h.1,
      length-append (encode c (as_ref n (rlp_encoded c n))) (encode_refs c (child_refs c cs)),
    )

    -- A node that is neither empty nor a digest is encoded as the list of its items: the header
    -- announces the length that the items have.
    pub rlp_encoded-leaf :
        (x : Nibbles) (v : Bytes)
        → rlp_encoded c (leaf x v)
          ≡ encode_list c (c.encode_string (c.encode_path_leaf x true) ∷ c.encode_string v ∷ [])
    unfolding rlp_encoded encode_list_header
    rlp_encoded-leaf x v =
        let p = c.encode_string (c.encode_path_leaf x true) in
        let total : c.string_length (c.encode_path_leaf x true) + c.string_length v
            ≡ length (p ++ (c.encode_string v ++ [])) =
          rw (append-nil, length-append)
            (ap₂ ◌+◌ (laws.string_length_lem _) (laws.string_length_lem v)) in
        rw total (rw append-nil refl)

    pub rlp_encoded-extension :
        (x : Nibbles) (n : Node)
        → IsNode n
        → rlp_encoded c (extension x n)
          ≡ encode_list c
              (c.encode_string (c.encode_path_leaf x false) ∷ encode c (from_node c n) ∷ [])
    unfolding rlp_encoded encode_list_header from_node
    rlp_encoded-extension x n h =
        let p = c.encode_string (c.encode_path_leaf x false) in
        let total : c.string_length (c.encode_path_leaf x false) + ref_length c (from_node c n)
            ≡ length (p ++ (encode c (from_node c n) ++ [])) =
          rw (append-nil, length-append)
            (ap₂ ◌+◌ (laws.string_length_lem _) (ref_length-from_node n h)) in
        rw total (rw append-nil refl)

    pub rlp_encoded-branch :
        (cs : Children) → AreNodes cs → rlp_encoded c (branch cs) ≡ encode_list c (branch_items cs)
    unfolding rlp_encoded encode_list_header
    rlp_encoded-branch cs h =
        let refs = encode_refs c (child_refs c cs) in
        let total : 1 + refs_length c (child_refs c cs) ≡ length (refs ++ 0x80 ∷ []) =
          omega (arith, refs_length-child_refs cs h, length-append refs (0x80 ∷ [])) in
        rw (concat-branch_items cs, total)
