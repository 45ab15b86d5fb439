-- ===== src/Codec.antt =====
-- The libraries below the tries, as parameters: keccak and SHA-256 (alloy-primitives, sha2), RLP
-- (alloy-rlp) and the hex-prefix paths (alloy-trie, nybbles), each as the operations that
-- crates/steel/src/mpt.rs and merkle.rs call.
use steel.Prelude.{ℕ, Bytes, B256, Bool, List, ◌≡◌, ◌≢◌}
use steel.Outcome.{Outcome}

-- a sequence of half bytes
abbrev pub Nibbles : Type 0
Nibbles = List ℕ

-- `alloy_rlp::PayloadView`: the payload of a string, or the encoded items of a list
pub data PayloadView : Type 0 where
  string : Bytes → PayloadView
  list : List Bytes → PayloadView

pub record Codec : Type 1 where
  pub keccak256 : Bytes → B256
  pub sha256 : Bytes → B256
  -- `Header { list, payload_length }.encode`
  pub encode_header : Bool → ℕ → Bytes
  -- `Encodable` of a byte slice and of a `B256`, and its `length`
  pub encode_string : Bytes → Bytes
  pub string_length : Bytes → ℕ
  -- `Header::decode_raw(buf)`: the payload, and what is left of the buffer
  pub decode_raw : Bytes → Outcome (PayloadView × Bytes)
  -- `Header::decode_bytes(buf, false)`
  pub decode_bytes : Bytes → Outcome (Bytes × Bytes)
  -- `alloy_rlp::decode_exact`, over the `Decodable::decode` of the type asked for
  pub decode_exact : {A : Type 0} → (Bytes → Outcome (A × Bytes)) → Bytes → Outcome A
  -- `encode_path_leaf(nibbles, is_leaf)` and `Nibbles::unpack`
  pub encode_path_leaf : Nibbles → Bool → Bytes
  pub unpack : Bytes → Nibbles

-- Two inputs on which a hash function agrees.
abbrev pub Collision : (Bytes → B256) → Type 0
Collision hash = (x : Bytes) × (y : Bytes) × (x ≢ y) × (hash x ≡ hash y)
