-- ===== src/Mpt/Toy.antt =====
-- A codec that has the laws: each header is one number, which holds the kind and the length. Its
-- bytes are unbounded numbers. The examples of the theorems run on it.
use steel.Prelude.{
  ℕ, zero, suc, ◌+◌, ◌*◌, ◌/◌, ◌%◌, ◌-◌, Bytes, List, [], ◌∷◌, map, ◌==◌, bytes_eq, if◌then◌else◌,
  length,
}
use steel.Outcome.{Outcome, ok, err, rlp, input_too_short, other, ◌>>=◌}
use steel.Codec.{Codec, PayloadView, string, list}
use steel.Mpt.Trie.{empty_root_hash}
use steel.Mpt.Laws.{hex_prefix, whole}

-- `take n xs` and `drop n xs`, or nothing if `xs` is too short
unfoldable pub split : ℕ → Bytes → Outcome (Bytes × Bytes)
split zero xs = ok ([], xs)
split (suc n) [] = err (rlp input_too_short)
split (suc n) (x ∷ xs) = do (front, back) ← split n xs; ok (x ∷ front, back)

-- A header is 128 + 2 * length for a string, and one more for a list.
unfoldable pub payload_length : ℕ → ℕ
payload_length h = (h - 128) / 2

unfoldable pub split_items : ℕ → Bytes → Outcome (List Bytes)
unfolding split payload_length
split_items zero xs = err (rlp other)
split_items (suc fuel) [] = ok []
split_items (suc fuel) (h ∷ xs) = do
  (payload, rest) ← split (payload_length h) xs
  items ← split_items fuel rest
  ok ((h ∷ payload) ∷ items)

unfoldable pub view : ℕ → Bytes → Outcome PayloadView
unfolding split_items
view h payload =
    if h % 2 == 0
    then ok (string payload)
    else (do items ← split_items (suc (length payload)) payload; ok (list items))

unfoldable pub toy_decode_raw : Bytes → Outcome (PayloadView × Bytes)
unfolding view
toy_decode_raw [] = err (rlp input_too_short)
toy_decode_raw (h ∷ xs) = do
  (payload, rest) ← split (payload_length h) xs
  payload_view ← view h payload
  ok (payload_view, rest)

unfoldable pub toy_decode_bytes : Bytes → Outcome (Bytes × Bytes)
unfolding toy_decode_raw
toy_decode_bytes xs = do
  (payload_view, rest) ← toy_decode_raw xs
  elim payload_view [ string payload ↦ ok (payload, rest) | list items ↦ err (rlp other) ]

-- A number that tells any two byte strings of bounded entries apart.
unfoldable pub weigh : Bytes → ℕ
weigh [] = 0
weigh (x ∷ xs) = weigh xs * 1009 + (x + 1)

abbrev pub zeros : Bytes
zeros =
    0 ∷ 0 ∷ 0 ∷ 0 ∷ 0 ∷ 0 ∷ 0 ∷ 0 ∷ 0 ∷ 0 ∷ 0 ∷ 0 ∷ 0 ∷ 0 ∷ 0 ∷ 0 ∷ 0 ∷ 0 ∷ 0 ∷ 0 ∷ 0 ∷ 0 ∷ 0 ∷ 0
    ∷ 0 ∷ 0 ∷ 0 ∷ 0 ∷ 0 ∷ 0 ∷ 0 ∷ []

unfoldable pub toy_keccak256 : Bytes → Bytes
unfolding weigh
toy_keccak256 xs = if bytes_eq xs (0x80 ∷ []) then empty_root_hash else weigh xs ∷ zeros

abbrev pub toy : Codec
toy = record {
  keccak256 = toy_keccak256;
  sha256 = toy_keccak256;
  encode_header = λ is_list n. (if is_list then 129 + 2 * n else 128 + 2 * n) ∷ [];
  encode_string = λ x. (128 + 2 * length x) ∷ x;
  string_length = λ x. suc (length x);
  decode_raw = toy_decode_raw;
  decode_bytes = toy_decode_bytes;
  decode_exact = λ decode x. decode x >>= whole;
  encode_path_leaf = hex_prefix;
  unpack = map (λ x. x % 16);
}
