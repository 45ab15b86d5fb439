-- ===== src/Header.antt =====
-- crates/steel/src/lib.rs, `EvmBlockHeader` and `EvmSpecId`: the traits by which the crate reads a
-- block header and a hard fork, and `Sealed`, a header with its hash.
use steel.Prelude.{ℕ, Bytes, B256, Bool, ◌≡◌}

pub record EvmBlockHeader (H : Type 0) : Type 0 where
  -- `Sealable::hash_slow`
  pub hash_slow : H → B256
  pub parent_hash : H → B256
  pub number : H → ℕ
  pub timestamp : H → ℕ
  pub state_root : H → B256
  pub receipts_root : H → B256
  pub logs_bloom : H → Bytes

pub record EvmSpecId (S : Type 0) : Type 0 where
  -- the position of a fork in the order `Ord`
  pub rank : S → ℕ
  pub has_eip4788 : S → Bool
  pub has_eip2935 : S → Bool
  pub to_u32 : S → ℕ

-- `Sealed<H>`
pub record Sealed (H : Type 0) : Type 0 where
  pub inner : H
  pub seal : B256

module _ {H : Type 0} (ops : EvmBlockHeader H) where
  abbrev pub seal_slow : H → Sealed H
  seal_slow header = record { inner = header; seal = ops.hash_slow header }

  -- a seal that is the hash of its header
  abbrev pub IsSealed : Sealed H → Type 0
  IsSealed header = header.seal ≡ ops.hash_slow header.inner
