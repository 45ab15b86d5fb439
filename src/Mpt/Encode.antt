-- ===== src/Mpt/Encode.antt =====
-- The RLP encoding of a node (`Node::rlp_encoded`, `NodeRef`, `encode_list_header`).
use steel.Prelude.{
  ℕ, ◌+◌, Bytes, B256, true, false, List, [], ◌∷◌, ◌++◌, leb, length, if◌then◌else◌,
}
use steel.Codec.{Codec}
use steel.Mpt.Node.{Node, Children, null, leaf, extension, branch, no_more, vacant, child}

abbrev pub empty_string_code : ℕ
empty_string_code = 0x80

-- `NodeRef`; `node` holds the encoding of a node
pub data NodeRef : Type 0 where
  empty : NodeRef
  digest : B256 → NodeRef
  node : Bytes → NodeRef

module _ (c : Codec) where
  unfoldable pub encode_list_header : ℕ → Bytes
  encode_list_header payload_length = c.encode_header true payload_length

  -- `<NodeRef as Encodable>::encode`
  unfoldable pub encode : NodeRef → Bytes
  encode empty = empty_string_code ∷ []
  encode (digest d) = c.encode_string d
  encode (node rlp) = if leb 32 (length rlp) then c.encode_string (c.keccak256 rlp) else rlp

  -- `<NodeRef as Encodable>::length`
  unfoldable pub ref_length : NodeRef → ℕ
  ref_length empty = 1
  ref_length (digest d) = 33
  ref_length (node rlp) = if leb 32 (length rlp) then 33 else length rlp

  -- `child_refs.iter().for_each(|child| child.encode(&mut out))`
  unfoldable pub encode_refs : List NodeRef → Bytes
  encode_refs [] = []
  encode_refs (r ∷ refs) = encode r ++ encode_refs refs

  -- the sum of the lengths that the loop over the children adds to `payload_length`
  unfoldable pub refs_length : List NodeRef → ℕ
  refs_length [] = 0
  refs_length (r ∷ refs) = ref_length r + refs_length refs

-- The reference to a node that has the encoding `rlp`.
unfoldable pub as_ref : Node → Bytes → NodeRef
as_ref null rlp = empty
as_ref (Node.digest d) rlp = NodeRef.digest d
as_ref (leaf prefix value) rlp = node rlp
as_ref (extension prefix n) rlp = node rlp
as_ref (branch children) rlp = node rlp

module _ (c : Codec) where
  unfoldable mutual
    pub rlp_encoded : Node → Bytes
    rlp_encoded null = empty_string_code ∷ []
    rlp_encoded (leaf prefix value) =
        let path = c.encode_path_leaf prefix true in
        encode_list_header c (c.string_length path + c.string_length value)
        ++ (c.encode_string path ++ c.encode_string value)
    rlp_encoded (extension prefix n) =
        let path = c.encode_path_leaf prefix false in
        let node_ref = as_ref n (rlp_encoded n) in
        encode_list_header c (c.string_length path + ref_length c node_ref)
        ++ (c.encode_string path ++ encode c node_ref)
    rlp_encoded (branch children) =
        let refs = child_refs children in
        encode_list_header c (1 + refs_length c refs)
        ++ (encode_refs c refs ++ empty_string_code ∷ [])
    rlp_encoded (Node.digest d) = c.encode_string d

    -- the array `child_refs`, whose entries start as `NodeRef::Empty`
    pub child_refs : Children → List NodeRef
    child_refs no_more = []
    child_refs (vacant children) = empty ∷ child_refs children
    child_refs (child n children) = as_ref n (rlp_encoded n) ∷ child_refs children

  unfoldable pub from_node : Node → NodeRef
  unfolding as_ref
  from_node n = as_ref n (rlp_encoded n)
