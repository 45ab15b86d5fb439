-- ===== src/Mpt/Decode.antt =====
-- Reading a node from its RLP encoding (`<Node as Decodable>::decode`, `decode_path`, `parse_node`).
use steel.Prelude.{
  ℕ, zero, suc, Bytes, B256, Bool, true, false, Option, none, some, List, [], ◌∷◌, leb, length,
  ◌==◌, bytes_eq, if◌then◌else◌,
}
use steel.Outcome.{
  Outcome, ok, err, out_of_fuel, rlp, input_too_short, unexpected_length, custom, ◌>>=◌,
}
use steel.Codec.{Codec, Nibbles, PayloadView, string, list}
use steel.Mpt.Node.{
  Node, Children, null, leaf, extension, branch, digest, no_more, vacant, child, is_null,
}
use steel.Mpt.Encode.{empty_string_code}

-- The flag in the first half byte of a path, and the rest after it.
unfoldable pub split_path : Nibbles → Outcome (Nibbles × Bool)
split_path [] = err (rlp input_too_short)
split_path (first ∷ []) = err (rlp input_too_short)
split_path (first ∷ second ∷ rest) =
    if first == 0b0000
    then ok (rest, false)
    else if first == 0b0001
    then ok (second ∷ rest, false)
    else if first == 0b0010
    then ok (rest, true)
    else if first == 0b0011
    then ok (second ∷ rest, true)
    else err (rlp (custom "node is not extension or leaf"))

module _ (c : Codec) where
  unfoldable pub decode_path : Bytes → Outcome (Nibbles × Bool)
  unfolding split_path
  decode_path buf = do (path, rest) ← c.decode_bytes buf; split_path (c.unpack path)

  -- an extension has a child
  unfoldable pub new_extension : Nibbles → Node → Outcome Node
  new_extension path node =
      if is_null node
      then err (rlp (custom "extension node with null child"))
      else ok (extension path node)

  -- The loop over the 17 items of a branch. `read` decodes an item.
  unfoldable pub decode_children : (Bytes → Outcome Node) → List Bytes → Outcome Children
  decode_children read [] = ok no_more
  decode_children read (value ∷ []) =
      if bytes_eq value (empty_string_code ∷ [])
      then ok no_more
      else err (rlp (custom "branch node with value"))
  decode_children read (item ∷ next ∷ items) =
      let rest = decode_children read (next ∷ items) in
      if bytes_eq item (empty_string_code ∷ [])
      then (do children ← rest; ok (vacant children))
      else (do node ← read item; children ← rest; ok (child node children))

  unfoldable pub decode_string : Bytes → Outcome Node
  decode_string payload =
      if length payload == 0
      then ok null
      else if length payload == 32
      then ok (digest payload)
      else err (rlp unexpected_length)

  unfoldable pub decode_pair : (Bytes → Outcome Node) → Bytes → Bytes → Outcome Node
  unfolding decode_path new_extension
  decode_pair read item0 item1 = do
    (path, is_leaf) ← decode_path item0
    if is_leaf
        then (do (value, rest) ← c.decode_bytes item1; ok (leaf path value))
        else (do node ← read item1; new_extension path node)

  unfoldable pub decode_list : (Bytes → Outcome Node) → List Bytes → Outcome Node
  unfolding decode_pair decode_children
  decode_list read (item0 ∷ item1 ∷ []) = decode_pair read item0 item1
  decode_list read items =
      if length items == 17
      then (do children ← decode_children read items; ok (branch children))
      else err (rlp (custom "unexpected list length"))

  unfoldable pub decode_view : (Bytes → Outcome Node) → PayloadView → Outcome Node
  unfolding decode_string decode_list
  decode_view read (string payload) = decode_string payload
  decode_view read (list items) = decode_list read items

  -- An item of a list is shorter than the list, so the length of the buffer is fuel enough.
  unfoldable pub decode : ℕ → Bytes → Outcome (Node × Bytes)
  unfolding decode_view
  decode zero buf = out_of_fuel
  decode (suc fuel) buf = do
    (view, rest) ← c.decode_raw buf
    node ← decode_view (c.decode_exact (decode fuel)) view
    ok (node, rest)

  -- `alloy_rlp::decode_exact` at `Node`
  unfoldable pub decode_node : Bytes → Outcome Node
  unfolding decode
  decode_node bytes = c.decode_exact (decode (suc (length bytes))) bytes

  -- The decoded node, and its hash if it is long enough to be referenced by one.
  unfoldable pub parse_node : Bytes → Outcome (Option B256 × Node)
  unfolding decode_node
  parse_node bytes = do
    node ← decode_node bytes
    ok ((if leb 32 (length bytes) then some (c.keccak256 bytes) else none), node)
