-- ===== src/Mpt/Paths.antt =====
-- The path of a leaf or an extension reads back from its hex-prefix encoding.
use steel.Prelude.{◌≡◌, refl, Bytes, Bool, true, false, [], ◌∷◌, All, Bool-cases, inl, inr, ◌++◌}
use steel.Outcome.{ok}
use steel.Codec.{Codec, Nibbles}
use steel.Mpt.Node.{IsNibble}
use steel.Mpt.Decode.{split_path, decode_path}
use steel.Mpt.Laws.{Laws, hex_prefix, is_odd}

pub split_path-hex_prefix :
    (path : Nibbles) (is_leaf : Bool) → split_path (hex_prefix path is_leaf) ≡ ok (path, is_leaf)
unfolding split_path
split_path-hex_prefix [] true = refl
split_path-hex_prefix [] false = refl
split_path-hex_prefix (n ∷ path) true = elim (Bool-cases (is_odd (n ∷ path))) [
  | inl e ↦ rw e refl
  | inr e ↦ rw e refl
]
split_path-hex_prefix (n ∷ path) false = elim (Bool-cases (is_odd (n ∷ path))) [
  | inl e ↦ rw e refl
  | inr e ↦ rw e refl
]

module _ (c : Codec) (laws : Laws c) where
  -- `decode_path` reads the path and the kind of node from what `encode_path_leaf` wrote, whatever
  -- follows it in the buffer.
  pub decode_path-encode :
      (path : Nibbles) (is_leaf : Bool) (rest : Bytes)
      → All IsNibble path
      → decode_path c (c.encode_string (c.encode_path_leaf path is_leaf) ++ rest)
        ≡ ok (path, is_leaf)
  unfolding decode_path
  decode_path-encode path is_leaf rest h =
      rw
        (
          laws.decode_bytes-string (c.encode_path_leaf path is_leaf) rest,
          laws.unpack-encode_path_leaf path is_leaf h,
        )
        (split_path-hex_prefix path is_leaf)

  -- No two paths, or kinds of node, are encoded alike.
  pub path_eq :
      (p q : Nibbles) (a b : Bool)
      → All IsNibble p
      → All IsNibble q
      → c.encode_string (c.encode_path_leaf p a) ≡ c.encode_string (c.encode_path_leaf q b)
      → (p ≡ q) × (a ≡ b)
  path_eq p q a b hp hq e =
      let one = decode_path-encode p a [] hp in
      let two = decode_path-encode q b [] hq in (cc (e, one, two), cc (e, one, two))
