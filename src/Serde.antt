-- ===== src/Serde.antt =====
-- crates/steel/src/serde.rs: wrappers that are serialized by their RLP, and keep the bytes they were
-- read from.
pub mod RoundTrip
use steel.Prelude.{ℕ, Bytes, B256, Bool, String, Option, none, some, [], ◌∷◌, length, if◌then◌else◌}
use steel.Outcome.{Outcome, ok, err, message, ◌>>=◌}
use steel.Codec.{Codec}
use steel.Header.{Sealed}

-- what a serializer writes, and a visitor is shown
pub data Wire : Type 0 where
  text : Bytes → Wire
  raw : Bytes → Wire
  sequence : Bytes → Wire

-- The hex functions, which a human readable format uses. A text is the list of its characters.
pub record Hex : Type 0 where
  pub encode : Bytes → Bytes
  pub decode : Bytes → Outcome Bytes

-- `Encodable` and `Decodable` of a header
pub record Rlp (H : Type 0) : Type 0 where
  pub encode : H → Bytes
  pub decode_exact : Bytes → Outcome H

pub record RlpHeader (H : Type 0) : Type 0 where
  pub inner : H
  pub rlp : Option Bytes

-- `BytesVisitor`
unfoldable pub visit : Hex → Wire → Outcome Bytes
visit hex (text s) = hex.decode s
visit hex (raw bytes) = ok bytes
visit hex (sequence values) = ok values

unfoldable pub write : Hex → Bool → Bytes → Wire
write hex is_human_readable encoded =
    if is_human_readable then text (hex.encode encoded) else raw encoded

unfoldable pub new : {H : Type 0} → H → RlpHeader H
new inner = record { inner = inner; rlp = none }

abbrev pub kept_or : Option Bytes → Bytes → Bytes
kept_or none encoded = encoded
kept_or (some bytes) encoded = bytes

module _ {H : Type 0} (c : Codec) (codec : Rlp H) where
  unfoldable pub hash_slow : RlpHeader H → B256
  hash_slow self = c.keccak256 (kept_or self.rlp (codec.encode self.inner))

unfoldable pub seal_unchecked : {H : Type 0} → RlpHeader H → B256 → Sealed (RlpHeader H)
seal_unchecked self seal = record { inner = record { inner = self.inner; rlp = none }; seal = seal }

module _ {H : Type 0} (hex : Hex) (codec : Rlp H) where
  unfoldable pub serialize : Bool → RlpHeader H → Wire
  unfolding write
  serialize is_human_readable self = write hex is_human_readable (codec.encode self.inner)

  unfoldable pub deserialize : Wire → Outcome (RlpHeader H)
  unfolding visit
  deserialize wire = do
    rlp ← visit hex wire
    inner ← codec.decode_exact rlp
    ok (record { inner = inner; rlp = some rlp })

-- What the wrapper uses of `Eip2718Envelope`.
pub record Envelope (T : Type 0) : Type 0 where
  pub encoded_2718 : T → Bytes
  pub encode_2718_len : T → ℕ
  pub decode_2718 : Bytes → Outcome (T × Bytes)

pub record Eip2718Wrapper (T : Type 0) : Type 0 where
  pub inner : T
  pub encoding : Option Bytes

unfoldable pub new_wrapper : {T : Type 0} → T → Eip2718Wrapper T
new_wrapper inner = record { inner = inner; encoding = none }

-- the rest of the buffer after the value must be empty
abbrev pub exact : {T : Type 0} → T → Bytes → Outcome T
exact inner [] = ok inner
exact inner (b ∷ rest) = err (message "unexpected length")

module _ {T : Type 0} (hex : Hex) (envelope : Envelope T) where
  unfoldable pub encode_2718_len : Eip2718Wrapper T → ℕ
  encode_2718_len self = elim self.encoding [
    | none ↦ envelope.encode_2718_len self.inner
    | some bytes ↦ length bytes
  ]

  unfoldable pub encode_2718 : Eip2718Wrapper T → Bytes
  encode_2718 self = kept_or self.encoding (envelope.encoded_2718 self.inner)

  unfoldable pub serialize_wrapper : Bool → Eip2718Wrapper T → Wire
  unfolding write
  serialize_wrapper is_human_readable self =
      write hex is_human_readable (envelope.encoded_2718 self.inner)

  unfoldable pub deserialize_wrapper : Wire → Outcome (Eip2718Wrapper T)
  unfolding visit
  deserialize_wrapper wire = do
    bytes ← visit hex wire
    (value, rest) ← envelope.decode_2718 bytes
    inner ← exact value rest
    ok (record { inner = inner; encoding = some bytes })
