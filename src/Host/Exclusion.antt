-- ===== src/Host/Exclusion.antt =====
-- crates/steel/src/host/db/proof.rs, `receipt_proof`, and crates/steel/src/state.rs, `logs`: logs and the
-- bloom filter of a block.
use steel.Prelude.{
  ℕ, ◌∙◌, sym, ap, Option, some, ◌≡◌, refl, Bytes, Bool, true, false, none, List, [], ◌∷◌, ◌++◌,
  arith, if◌then◌else◌,
}
use steel.Outcome.{ok, >>=-eq-ok}
use steel.Platform.{Platform, Filter}
use steel.Event.{matches_filter}
use steel.Header.{EvmBlockHeader, EvmSpecId, seal_slow}
use steel.Commitment.{Commitment}
use steel.Config.Spec.{ChainSpec}
use steel.State
use steel.State.{StateDb, select_logs, wrap, names_block}
use steel.Env.{EvmEnv}
use steel.Block.{BlockInput, Receipts, into_env}
use steel.Block.Binding.{into_env-no_logs}
use steel.Host.Accepted.{from_proof_db-IsMade, state_proof-Keeps}
use steel.Host.Input.{try_all, try_option, from_proof_db}
use steel.Rpc.{Network, context, or_err}
use steel.Host.Provider.{ProviderDb}
use steel.Host.Proof.{ProofDb}
use steel.Host.Proof.Requests.{receipt_proof, any_match, db_block, fetch_receipts, is_empty}

any_match-false :
    (p : Platform) (bloom : Bytes) (before after : List Filter) (f : Filter)
    → any_match p bloom (before ++ f ∷ after) ≡ false
    → matches_filter p bloom f ≡ false
unfolding any_match
any_match-false p bloom [] after f e = ground arith
any_match-false p bloom (g ∷ before) after f e =
    ground (arith, any_match-false p bloom before after f)

is_empty-append :
    {A : Type 0} (before after : List A) (x : A) → is_empty (before ++ x ∷ after) ≡ false
is_empty-append [] after x = refl
is_empty-append (y ∷ before) after x = refl

module _ {HR RR H R : Type 0} (net : Network HR RR H R) (p : Platform) where
  not_fetched : (inner : ProviderDb HR RR) → fetch_receipts inner ≡ ok none → ⊥
  unfolding fetch_receipts
  not_fetched inner e =
      let (found, q, r) =
        >>=-eq-ok
          (context (inner.provider.get_block_receipts inner.block) "eth_getBlockReceipts failed") _
          e in
      let (list, q', r') = >>=-eq-ok (or_err found "block not found") _ r in cc

  -- Where the host sends no receipts, the bloom filter that the node tells of the block rules out each
  -- filter that a run recorded.
  receipt_proof-unmatched :
      (db : ProofDb (ProviderDb HR RR)) (before after : List Filter) (f : Filter) (header : HR)
      → db.log_filters ≡ before ++ f ∷ after
      → db_block net db.inner ≡ ok header
      → receipt_proof net p db ≡ ok none
      → matches_filter p (net.logs_bloom header) f ≡ false
  unfolding receipt_proof
  receipt_proof-unmatched db before after f header filters block e =
      at (any_match p (net.logs_bloom header) (before ++ f ∷ after)) refl
        (rw (filters, is_empty-append before after f, block) at e)
    where
      at :
          (b : Bool)
          → any_match p (net.logs_bloom header) (before ++ f ∷ after) ≡ b
          → (if b then fetch_receipts db.inner else ok none) ≡ ok none
          → matches_filter p (net.logs_bloom header) f ≡ false
      at true h r = absurd (not_fetched db.inner r)
      at false h r = any_match-false p (net.logs_bloom header) before after f h

  try_option-none :
      (found : Option (List RR)) → try_option net.try_receipt found ≡ ok none → found ≡ none
  unfolding try_option
  try_option-none none e = refl
  try_option-none (some responses) e =
      let (list, q, r) = >>=-eq-ok (try_all net.try_receipt responses) _ e in cc

  module _ {S : Type 0} (fuel : ℕ) (ops : EvmBlockHeader H) (ids : EvmSpecId S)
      (rs : Receipts R) where
    -- Let the host make an input without receipts for a block whose bloom filter the node tells as the
    -- header has it, and the guest an environment of that input. Then the guest's query of each
    -- filter that a run recorded, and that names this block, ends with the empty list, and with no
    -- panic.
    pub from_proof_db-logs :
        (db : ProofDb (ProviderDb HR RR)) (h : H) (input : BlockInput H R) (spec : ChainSpec S)
        (guest : EvmEnv StateDb S H Commitment) (header : HR) (before after : List Filter)
        (f : Filter)
        → db.log_filters ≡ before ++ f ∷ after
        → names_block f.block_hash (ops.hash_slow h) ≡ true
        → db_block net db.inner ≡ ok header
        → net.logs_bloom header ≡ ops.logs_bloom h
        → from_proof_db p fuel net ops db (seal_slow ops h) ≡ ok input
        → input.receipts ≡ none
        → into_env p ops ids rs input spec ≡ ok guest
        → State.logs p ops (wrap guest.db guest.header) f ≡ ok []
    unfolding State.logs select_logs wrap
    from_proof_db-logs db h input spec guest header before after f filters named block bloom made
          absent accepted =
        let parts = from_proof_db-IsMade p fuel net ops ids rs db (seal_slow ops h) input made in
        let (inner, _, kept) =
          state_proof-Keeps p fuel net ops ids rs db parts.after parts.proven in
        let unsent : parts.receipts ≡ none =
          try_option-none parts.receipts (parts.decoded ∙ ap ok absent) in
        let unmatched =
          receipt_proof-unmatched parts.after before after f header (kept ∙ filters)
            (rw inner block) (parts.served ∙ ap ok unsent) in
        let (no_logs, same) = into_env-no_logs p ops ids rs input spec guest absent accepted in
        let header_eq : guest.header ≡ seal_slow ops h =
          same ∙ ap (seal_slow ops) parts.same_header in
        rw (header_eq, no_logs, named, sym bloom, unmatched) refl
