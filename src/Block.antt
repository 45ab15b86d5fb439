-- ===== src/Block.antt =====
-- crates/steel/src/block.rs: the input of the guest, whose state and ancestors a header commits to.
pub mod Binding
pub mod Digest
use steel.Prelude.{ℕ, Bytes, B256, Option, none, some, List, [], ◌∷◌, ◌++◌, bytes_eq}
use steel.Outcome.{Outcome, ok, panic, assert, ◌>>=◌, ◌>>◌}
use steel.Codec.{Codec}
use steel.Header.{EvmBlockHeader, EvmSpecId, Sealed, seal_slow}
use steel.Platform.{Platform, Log}
use steel.Mpt.Trie.{MerkleTrie, hash_slow}
use steel.Commitment
use steel.Commitment.{Commitment, as_u16, block}
use steel.Config.Spec.{ChainSpec}
use steel.Config.Digest.{digest}
use steel.State
use steel.State.{StateDb, insert_at}
use steel.Env.{EvmEnv, from_chain_spec}

-- What the input uses of `F::Receipt`: the EIP-2718 encoding and `TxReceipt::into_logs`.
pub record Receipts (R : Type 0) : Type 0 where
  pub encode_2718 : R → Bytes
  pub into_logs : R → List Log

pub record BlockInput (H R : Type 0) : Type 0 where
  pub header : H
  pub state_trie : MerkleTrie
  pub storage_tries : List MerkleTrie
  pub contracts : List Bytes
  pub ancestors : List H
  pub receipts : Option (List R)

abbrev pub BlockHashes : Type 0
BlockHashes = ℕ → Option B256

module _ {H : Type 0} (ops : EvmBlockHeader H) where
  -- `BlockHeaderCommit` of the unit type
  unfoldable pub commit : Sealed H → B256 → Commitment
  commit header config_id =
      Commitment.new (as_u16 block) (ops.number header.inner) header.seal config_id

  -- the loop over the ancestors
  unfoldable pub link_ancestors : H → List H → BlockHashes → Outcome BlockHashes
  link_ancestors previous [] hashes = ok hashes
  link_ancestors previous (ancestor ∷ ancestors) hashes = do
    assert (bytes_eq (ops.parent_hash previous) (ops.hash_slow ancestor)) "Invalid ancestor chain"
    link_ancestors ancestor ancestors
        (insert_at hashes (ops.number ancestor) (ops.hash_slow ancestor))

module _ {R : Type 0} (rs : Receipts R) where
  unfoldable pub encodings : List R → List Bytes
  encodings [] = []
  encodings (r ∷ receipts) = rs.encode_2718 r ∷ encodings receipts

  -- `flat_map(TxReceipt::into_logs)`
  unfoldable pub all_logs : List R → List Log
  all_logs [] = []
  all_logs (r ∷ receipts) = rs.into_logs r ++ all_logs receipts

module _ (p : Platform) {H R S : Type 0} (ops : EvmBlockHeader H) (ids : EvmSpecId S)
    (rs : Receipts R) where
  -- the root of the receipts that are included, and their logs
  unfoldable pub check_receipts : Sealed H → Option (List R) → Outcome (Option (List Log))
  unfolding encodings all_logs
  check_receipts header none = ok none
  check_receipts header (some receipts) = do
    assert (bytes_eq (ops.receipts_root header.inner) (p.ordered_trie_root (encodings rs receipts)))
        "Receipts root mismatch"
    ok (some (all_logs rs receipts))

  unfoldable pub into_env : BlockInput H R → ChainSpec S → Outcome (EvmEnv StateDb S H Commitment)
  unfolding link_ancestors check_receipts from_chain_spec insert_at
  into_env input chain_spec = do
    assert (bytes_eq (ops.state_root input.header) (hash_slow p.codec input.state_trie))
        "State root mismatch"
    let header = seal_slow ops input.header
    block_hashes ←
        link_ancestors ops input.header input.ancestors
          (insert_at (λ k. none) (ops.number input.header) header.seal)
    logs ← check_receipts header input.receipts
    config_id ← digest p.codec ids chain_spec
    from_chain_spec ops
        (State.new p input.state_trie input.storage_tries input.contracts block_hashes logs)
        chain_spec header
        (Commitment.new (as_u16 block) (ops.number input.header) header.seal config_id)
