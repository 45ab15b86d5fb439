-- ===== src/State/Logs.antt =====
-- The logs that the database tells, with the receipts of the block or without them.
use steel.Prelude.{
  ◌≡◌, refl, sym, ◌∙◌, ◌⊎◌, inl, inr, Bytes, Bool, true, false, Option, none, some, List, [], ◌∷◌,
  not, All, Bool-cases,
}
use steel.Outcome.{ok, ok-injective, assert->>}
use steel.Header.{EvmBlockHeader}
use steel.Platform.{Platform, Log, Filter}
use steel.Event.{matches_filter}
use steel.State.{WrapStateDb, keeps_log, filter_logs, select_logs, logs, names_block}

module _ (p : Platform) where
  -- A bloom covers logs if it matches no filter's addresses, or topics, only where none of the logs
  -- does.
  pub record Covers (bloom : Bytes) (all : List Log) : Type 0 where
    pub addresses :
        (filter : Filter)
        → p.matches_address bloom filter.address ≡ false
        → All (λ log. p.filter_address filter log.address ≡ false) all
    pub topics :
        (filter : Filter)
        → p.matches_topics bloom filter.topics ≡ false
        → All (λ log. p.filter_topics filter log.topics ≡ false) all

  none_by_address :
      (filter : Filter) (all : List Log)
      → All (λ log. p.filter_address filter log.address ≡ false) all
      → filter_logs p filter all ≡ []
  unfolding filter_logs keeps_log
  none_by_address filter [] h = refl
  none_by_address filter (log ∷ all) h = rw (h.0) (none_by_address filter all h.1)

  none_by_topics :
      (filter : Filter) (all : List Log)
      → All (λ log. p.filter_topics filter log.topics ≡ false) all
      → filter_logs p filter all ≡ []
  unfolding filter_logs keeps_log
  none_by_topics filter [] h = refl
  none_by_topics filter (log ∷ all) h = elim (Bool-cases (p.filter_address filter log.address)) [
    | inl hit ↦ rw (hit, h.0) (none_by_topics filter all h.1)
    | inr miss ↦ rw miss (none_by_topics filter all h.1)
  ]

  unmatched-filter_logs :
      (bloom : Bytes) (filter : Filter) (all : List Log)
      → Covers bloom all
      → matches_filter p bloom filter ≡ false
      → filter_logs p filter all ≡ []
  unfolding matches_filter
  unmatched-filter_logs bloom filter all covers none_match =
      elim (Bool-cases (p.matches_address bloom filter.address)) [
        | inl hit ↦ none_by_topics filter all (covers.topics filter (rw hit at none_match))
        | inr miss ↦ none_by_address filter all (covers.addresses filter miss)
      ]

  select_logs_lem :
      (bloom : Bytes) (filter : Filter) (all found : List Log) (kept : Option (List Log))
      → Covers bloom all
      → (kept ≡ some all) ⊎ (kept ≡ none)
      → select_logs p bloom filter kept ≡ ok found
      → found ≡ filter_logs p filter all
  unfolding select_logs
  select_logs_lem bloom filter all found kept covers (inl some_logs) e = cc (rw some_logs at e)
  select_logs_lem bloom filter all found kept covers (inr no_logs) e =
      let (no_match, none_found) =
        assert->> (not (matches_filter p bloom filter)) _ (ok []) (rw no_logs at e) in
      sym (ok-injective none_found)
      ∙ sym (unmatched-filter_logs bloom filter all covers (not-eq-true _ no_match))
    where
      not-eq-true : (b : Bool) → not b ≡ true → b ≡ false
      not-eq-true true h = cc
      not-eq-true false h = refl

  -- Logs that are told, by a database with the logs of the block or with none, are all the logs of
  -- the block that the filter keeps, if the bloom of the block's header covers its logs.
  pub logs_lem :
      {H : Type 0} (ops : EvmBlockHeader H) (db : WrapStateDb H) (filter : Filter)
      (all found : List Log)
      → Covers (ops.logs_bloom db.header.inner) all
      → (db.inner.logs ≡ some all) ⊎ (db.inner.logs ≡ none)
      → logs p ops db filter ≡ ok found
      → found ≡ filter_logs p filter all
  unfolding logs
  logs_lem ops db filter all found covers kept e =
      select_logs_lem (ops.logs_bloom db.header.inner) filter all found db.inner.logs covers kept
        (assert->> (names_block filter.block_hash db.header.seal) _ _ e).1
