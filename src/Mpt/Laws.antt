-- ===== src/Mpt/Laws.antt =====
-- What the trie relies on of the libraries below it, as documented there: the RLP of strings and
-- lists reads back, the hex-prefix encoding of paths, hashes of 32 bytes.
use steel.Prelude.{
  ℕ, Bytes, B256, Bool, true, false, List, [], ◌∷◌, ◌++◌, ◌≡◌, length, All, if◌then◌else◌,
}
use steel.Outcome.{Outcome, ok, err, rlp, unexpected_length, ◌>>=◌}
use steel.Codec.{Codec, Nibbles, string, list}
use steel.Mpt.Node.{IsNibble}
use steel.Mpt.Trie.{empty_root_hash}

abbrev pub concat : List Bytes → Bytes
concat [] = []
concat (x ∷ xs) = x ++ concat xs

abbrev pub flag : Bool → Bool → ℕ
flag false false = 0
flag false true = 1
flag true false = 2
flag true true = 3

abbrev pub is_odd : Nibbles → Bool
is_odd [] = false
is_odd (_ ∷ []) = true
is_odd (_ ∷ _ ∷ path) = is_odd path

-- The hex-prefix encoding of a path: the flag, and a zero if that makes the number of half bytes even.
abbrev pub hex_prefix : Nibbles → Bool → Nibbles
hex_prefix path is_leaf =
    if is_odd path then flag is_leaf true ∷ path else flag is_leaf false ∷ 0 ∷ path

-- `decode_exact` refuses what is left after a value.
abbrev pub whole : {A : Type 0} → A × Bytes → Outcome A
whole (a, []) = ok a
whole (a, _ ∷ _) = err (rlp unexpected_length)

module _ (c : Codec) where
  abbrev pub encode_list : List Bytes → Bytes
  encode_list items = c.encode_header true (length (concat items)) ++ concat items

  -- The encoding of a string or of a list of items.
  mutual
    pub data IsItem : Bytes → Type 0 where
      string_item : (payload : Bytes) → IsItem (c.encode_string payload)
      list_item : {items : List Bytes} → AreItems items → IsItem (encode_list items)

    pub data AreItems : List Bytes → Type 0 where
      no_items : AreItems []
      next_item :
          {item : Bytes} {items : List Bytes}
          → IsItem item
          → AreItems items
          → AreItems (item ∷ items)

  pub record Laws : Type 1 where
    pub length-keccak256 : (x : Bytes) → length (c.keccak256 x) ≡ 32
    pub keccak256-empty : c.keccak256 (0x80 ∷ []) ≡ empty_root_hash
    pub string_length_lem : (x : Bytes) → c.string_length x ≡ length (c.encode_string x)
    pub encode_string-empty : c.encode_string [] ≡ 0x80 ∷ []
    pub length-encode_string_digest : (d : B256) → length d ≡ 32 → length (c.encode_string d) ≡ 33
    pub decode_raw-string :
        (x rest : Bytes) → c.decode_raw (c.encode_string x ++ rest) ≡ ok (string x, rest)
    pub decode_raw-list :
        (items : List Bytes) (rest : Bytes)
        → AreItems items
        → c.decode_raw (encode_list items ++ rest) ≡ ok (list items, rest)
    pub decode_bytes-string :
        (x rest : Bytes) → c.decode_bytes (c.encode_string x ++ rest) ≡ ok (x, rest)
    pub decode_exact_lem :
        {A : Type 0} (decode : Bytes → Outcome (A × Bytes)) (x : Bytes)
        → c.decode_exact decode x ≡ (decode x >>= whole)
    pub unpack-encode_path_leaf :
        (path : Nibbles) (is_leaf : Bool)
        → All IsNibble path
        → c.unpack (c.encode_path_leaf path is_leaf) ≡ hex_prefix path is_leaf
    pub IsNibble-unpack : (x : Bytes) → All IsNibble (c.unpack x)
