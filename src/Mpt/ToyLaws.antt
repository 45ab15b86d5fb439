-- ===== src/Mpt/ToyLaws.antt =====
-- The example codec has the laws.
use steel.Prelude.{
  ℕ, zero, suc, ◌+◌, ◌*◌, ◌%◌, ◌<◌, ◌≡◌, refl, Bytes, Bool, true, false, List, [], ◌∷◌, ◌++◌, map,
  arith, length, length-append, All, bytes_eq, Bool-cases, ap₂, inl, inr,
}
use steel.Outcome.{ok}
use steel.Codec.{Nibbles, string, list}
use steel.Mpt.Node.{IsNibble}
use steel.Mpt.Laws.{
  Laws, IsItem, AreItems, string_item, list_item, no_items, next_item, concat, hex_prefix, is_odd,
}
use steel.Mpt.Toy.{
  toy, split, payload_length, split_items, view, toy_decode_raw, toy_decode_bytes, toy_keccak256,
}

split-append : (x rest : Bytes) → split (length x) (x ++ rest) ≡ ok (x, rest)
unfolding split
split-append [] rest = refl
split-append (a ∷ x) rest = rw (split-append x rest)

payload_length-string : (n : ℕ) → payload_length (128 + 2 * n) ≡ n
unfolding payload_length
payload_length-string n = omega arith

payload_length-list : (n : ℕ) → payload_length (129 + 2 * n) ≡ n
unfolding payload_length
payload_length-list n = omega arith

-- An item is a header and the payload that it announces.
abbrev HasHeader : Bytes → Type 0
HasHeader x = (h : ℕ) × (p : Bytes) × (x ≡ h ∷ p) × (payload_length h ≡ length p)

IsItem-HasHeader : {x : Bytes} → IsItem toy x → HasHeader x
IsItem-HasHeader (string_item p) = (128 + 2 * length p, p, refl, payload_length-string (length p))
IsItem-HasHeader (list_item {items} are) = (
  129 + 2 * length (concat items),
  concat items,
  refl,
  payload_length-list (length (concat items)),
)

shorter : (x y : Bytes) {n : ℕ} → length (x ++ y) < suc n → 0 < length x → length y < n
shorter x y h p = omega (arith, length-append x y)

header_first : {x p : Bytes} {h : ℕ} → x ≡ h ∷ p → 0 < length x
header_first e = rw e (omega arith)

split_items-concat :
    (fuel : ℕ) {items : List Bytes}
    → AreItems toy items
    → length (concat items) < fuel
    → split_items fuel (concat items) ≡ ok items
unfolding split_items
split_items-concat zero are h = elim h [ ]
split_items-concat (suc fuel) no_items h = refl
split_items-concat (suc fuel) (next_item {item} {items} is are) h =
    let (k, p, e, n) = IsItem-HasHeader is in
    rw e (
      rw
        (
          n,
          split-append p (concat items),
          split_items-concat fuel are (shorter item (concat items) h (header_first e)),
        )
        refl)

view-string : (n : ℕ) (x : Bytes) → view (128 + 2 * n) x ≡ ok (string x)
unfolding view
view-string n x = let even : (128 + 2 * n) % 2 ≡ 0 = omega arith in rw even

view-list :
    {items : List Bytes} (n : ℕ)
    → AreItems toy items
    → view (129 + 2 * n) (concat items) ≡ ok (list items)
unfolding view
view-list {items} n are =
    let odd : (129 + 2 * n) % 2 ≡ 1 = omega arith in
    rw (odd, split_items-concat (suc (length (concat items))) are (omega arith))

toy_decode_raw-string :
    (x rest : Bytes) → toy_decode_raw ((128 + 2 * length x) ∷ x ++ rest) ≡ ok (string x, rest)
unfolding toy_decode_raw
toy_decode_raw-string x rest =
    rw (payload_length-string (length x), split-append x rest, view-string (length x) x)

toy_decode_raw-list :
    (items : List Bytes) (rest : Bytes)
    → AreItems toy items
    → toy_decode_raw ((129 + 2 * length (concat items)) ∷ (concat items ++ rest))
      ≡ ok (list items, rest)
unfolding toy_decode_raw
toy_decode_raw-list items rest are = rw (
  payload_length-list (length (concat items)),
  split-append (concat items) rest,
  view-list (length (concat items)) are,
)

toy_decode_bytes-string :
    (x rest : Bytes) → toy_decode_bytes ((128 + 2 * length x) ∷ x ++ rest) ≡ ok (x, rest)
unfolding toy_decode_bytes
toy_decode_bytes-string x rest = rw (toy_decode_raw-string x rest)

map_mod : (x : Nibbles) → All IsNibble x → map (λ n. n % 16) x ≡ x
map_mod [] h = refl
map_mod (n ∷ x) h = ap₂ ◌∷◌ (omega arith) (map_mod x h.1)

IsNibble-hex_prefix :
    (x : Nibbles) (is_leaf : Bool) → All IsNibble x → All IsNibble (hex_prefix x is_leaf)
IsNibble-hex_prefix x true h = elim (Bool-cases (is_odd x)) [
  | inl e ↦ rw e (omega arith, h)
  | inr e ↦ rw e (omega arith, (omega arith, h))
]
IsNibble-hex_prefix x false h = elim (Bool-cases (is_odd x)) [
  | inl e ↦ rw e (omega arith, h)
  | inr e ↦ rw e (omega arith, (omega arith, h))
]

IsNibble-map_mod : (x : Bytes) → All IsNibble (map (λ n. n % 16) x)
IsNibble-map_mod [] = tt
IsNibble-map_mod (n ∷ x) = (omega arith, IsNibble-map_mod x)

pub length-toy_keccak256 : (x : Bytes) → length (toy_keccak256 x) ≡ 32
unfolding toy_keccak256
length-toy_keccak256 x = elim (Bool-cases (bytes_eq x (0x80 ∷ []))) [
  | inl e ↦ rw e refl
  | inr e ↦ rw e refl
]

pub toy-Laws : Laws toy
toy-Laws = record {
  length-keccak256 = length-toy_keccak256;
  keccak256-empty = unfold toy_keccak256 bytes_eq in refl;
  string_length_lem = λ x. refl;
  encode_string-empty = refl;
  length-encode_string_digest = λ d h. omega arith;
  decode_raw-string = toy_decode_raw-string;
  decode_raw-list = toy_decode_raw-list;
  decode_bytes-string = toy_decode_bytes-string;
  decode_exact_lem = λ decode x. refl;
  unpack-encode_path_leaf =
      λ x is_leaf h. map_mod (hex_prefix x is_leaf) (IsNibble-hex_prefix x is_leaf h);
  IsNibble-unpack = IsNibble-map_mod;
}
