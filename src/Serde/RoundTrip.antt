-- ===== src/Serde/RoundTrip.antt =====
-- Values survive the wire, and so do their hashes and encodings.
use steel.Prelude.{◌≡◌, refl, Bytes, Bool, true, false, some, length, []}
use steel.Outcome.{Outcome, ok}
use steel.Codec.{Codec}
use steel.Serde.{
  Hex, Rlp, RlpHeader, visit, write, new, hash_slow, serialize, deserialize, Envelope,
  Eip2718Wrapper, encode_2718_len, encode_2718, serialize_wrapper, deserialize_wrapper,
}

module _ (hex : Hex) (readable : (bytes : Bytes) → hex.decode (hex.encode bytes) ≡ ok bytes) where
  visit-write : (human : Bool) (bytes : Bytes) → visit hex (write hex human bytes) ≡ ok bytes
  unfolding visit write
  visit-write true bytes = readable bytes
  visit-write false bytes = refl

  -- A header whose RLP is read back is the same header after it was serialized and deserialized, in
  -- either kind of format, and hashes as a new wrapper of that header does. Hex is read back.
  pub deserialize-serialize :
      {H : Type 0} (c : Codec) (codec : Rlp H) (human : Bool) (self : RlpHeader H)
      → codec.decode_exact (codec.encode self.inner) ≡ ok self.inner
      → (result : RlpHeader H) × (deserialize hex codec (serialize hex codec human self)
          ≡ ok result)
        × (result.inner ≡ self.inner)
        × (hash_slow c codec result ≡ hash_slow c codec (new self.inner))
  unfolding serialize deserialize hash_slow new
  deserialize-serialize c codec human self decoded = (
    record { inner = self.inner; rlp = some (codec.encode self.inner) },
    rw (visit-write human (codec.encode self.inner), decoded),
    refl,
    refl,
  )

  -- An envelope that is read back is the same after it was serialized and deserialized, in either
  -- kind of format, and is encoded with the length that is computed of it. Hex is read back.
  pub deserialize_wrapper-serialize_wrapper :
      {T : Type 0} (envelope : Envelope T) (human : Bool) (self : Eip2718Wrapper T)
      → ◌≡◌ {A = Outcome (T × Bytes)}
          (envelope.decode_2718 (envelope.encoded_2718 self.inner))
          (ok (self.inner, []))
      → (result : Eip2718Wrapper T) × (deserialize_wrapper hex envelope
            (serialize_wrapper hex envelope human self)
          ≡ ok result)
        × (result.inner ≡ self.inner)
        × (encode_2718 hex envelope result ≡ envelope.encoded_2718 self.inner)
        × (encode_2718_len hex envelope result ≡ length (encode_2718 hex envelope result))
  unfolding serialize_wrapper deserialize_wrapper encode_2718 encode_2718_len
  deserialize_wrapper-serialize_wrapper envelope human self decoded = (
    record { inner = self.inner; encoding = some (envelope.encoded_2718 self.inner) },
    rw (visit-write human (envelope.encoded_2718 self.inner), decoded),
    refl,
    refl,
    refl,
  )
