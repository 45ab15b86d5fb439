-- ===== src/Config/Digest.antt =====
-- The digest of a chain's configuration (`StructHash`).
use steel.Prelude.{Bytes, B256, List, [], ◌∷◌, ◌++◌, length, leb}
use steel.Outcome.{Outcome, ok, assert, ◌>>◌}
use steel.Codec.{Codec}
use steel.Header.{EvmSpecId}
use steel.Words.{to_le_bytes}
use steel.Config.Spec.{ForkCondition, block, timestamp, ChainSpec}

-- b"Block"
abbrev pub block_tag : Bytes
block_tag = b'B' ∷ b'l' ∷ b'o' ∷ b'c' ∷ b'k' ∷ []

-- b"Timestamp"
abbrev pub timestamp_tag : Bytes
timestamp_tag = b'T' ∷ b'i' ∷ b'm' ∷ b'e' ∷ b's' ∷ b't' ∷ b'a' ∷ b'm' ∷ b'p' ∷ []

-- b"ChainSpec(chain_id,forks)"
abbrev pub chain_spec_tag : Bytes
chain_spec_tag =
    b'C' ∷ b'h' ∷ b'a' ∷ b'i' ∷ b'n' ∷ b'S' ∷ b'p' ∷ b'e' ∷ b'c' ∷ b'(' ∷ b'c' ∷ b'h' ∷ b'a' ∷ b'i'
    ∷ b'n' ∷ b'_' ∷ b'i' ∷ b'd' ∷ b',' ∷ b'f' ∷ b'o' ∷ b'r' ∷ b'k' ∷ b's' ∷ b')' ∷ []

unfoldable pub condition_bytes : ForkCondition → Bytes
condition_bytes (block n) = block_tag ++ to_le_bytes 8 n
condition_bytes (timestamp ts) = timestamp_tag ++ to_le_bytes 8 ts

module _ (c : Codec) {S : Type 0} (ids : EvmSpecId S) where
  -- what is hashed of a fork
  unfoldable pub fork_bytes : S × ForkCondition → Bytes
  unfolding condition_bytes
  fork_bytes (s, fork) = to_le_bytes 4 (ids.to_u32 s) ++ condition_bytes fork

  unfoldable pub fork_digest : S × ForkCondition → B256
  unfolding fork_bytes
  fork_digest fork = c.sha256 (fork_bytes fork)

  unfoldable pub fork_digests : List (S × ForkCondition) → Bytes
  unfolding fork_digest
  fork_digests [] = []
  fork_digests (fork ∷ forks) = fork_digest fork ++ fork_digests forks

  -- what is hashed of a chain
  unfoldable pub chain_bytes : ChainSpec S → Bytes
  unfolding fork_digests
  chain_bytes spec =
      c.sha256 chain_spec_tag
      ++ (fork_digests spec.forks
          ++ (to_le_bytes 8 spec.chain_id ++ to_le_bytes 2 (length spec.forks)))

  -- `u16::try_from(self.forks.len()).unwrap()` panics where the length does not fit
  unfoldable pub digest : ChainSpec S → Outcome B256
  unfolding chain_bytes
  digest spec = do
    assert (leb (length spec.forks) 65535)
        "called `Result::unwrap()` on an `Err` value: TryFromIntError(())"
    ok (c.sha256 (chain_bytes spec))
