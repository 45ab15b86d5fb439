-- ===== src/Event.antt =====
-- crates/steel/src/event.rs: the query of a Solidity event.
pub mod Topics
use steel.Prelude.{
  ℕ, zero, suc, Bytes, B256, Address, Bool, Option, some, List, [], ◌∷◌, ◌&&◌, not, set,
}
use steel.Outcome.{Outcome, ok, assert, ◌>>=◌, ◌>>◌}
use steel.Header.{Sealed}
use steel.Platform.{Platform, Filter}

-- What the query uses of `SolEvent`.
pub record SolEvent : Type 0 where
  pub anonymous : Bool
  pub signature_hash : B256

-- `Event<S, E>` without its environment, which the query is given
pub record Event : Type 0 where
  pub filter : Filter

unfoldable pub event_filter : {H : Type 0} → SolEvent → Sealed H → Outcome Filter
event_filter event header = do
  assert (not event.anonymous) "Anonymous events not supported"
  ok (record {
    block_hash = some header.seal;
    address = [];
    topics = (event.signature_hash ∷ []) ∷ [] ∷ [] ∷ [] ∷ [];
  })

unfoldable pub new : {H : Type 0} → SolEvent → Sealed H → Outcome Event
unfolding event_filter
new event header = do filter ← event_filter event header; ok (record { filter = filter })

unfoldable pub with_address : List Address → Event → Event
with_address addresses e = record { filter = record e.filter { address = addresses } }

unfoldable pub with_topic : ℕ → List B256 → Event → Event
with_topic i topic e = record { filter = record e.filter { topics = set e.filter.topics i topic } }

unfoldable pub topic1 : List B256 → Event → Event
unfolding with_topic
topic1 = with_topic 1

unfoldable pub topic2 : List B256 → Event → Event
unfolding with_topic
topic2 = with_topic 2

unfoldable pub topic3 : List B256 → Event → Event
unfolding with_topic
topic3 = with_topic 3

-- whether a bloom filter may hold a log that the filter asks for
unfoldable pub matches_filter : Platform → Bytes → Filter → Bool
matches_filter p bloom filter =
    p.matches_address bloom filter.address && p.matches_topics bloom filter.topics
