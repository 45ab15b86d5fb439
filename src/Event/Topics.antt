-- ===== src/Event/Topics.antt =====
-- The builder of an event query.
use steel.Prelude.{
  arith, B256, Address, false, some, List, [], ◌∷◌, ◌≡◌, refl, sym, ap, set, Bool-cases, inl, inr,
}
use steel.Outcome.{ok, ok-injective}
use steel.Header.{Sealed}
use steel.Event.{SolEvent, Event, new, with_address, topic1, topic2, topic3}

abbrev fresh : {H : Type 0} → SolEvent → Sealed H → Event
fresh event header = record {
  filter = record {
    block_hash = some header.seal;
    address = [];
    topics = (event.signature_hash ∷ []) ∷ [] ∷ [] ∷ [] ∷ [];
  };
}

inverted :
    {H : Type 0} (event : SolEvent) (header : Sealed H) (e : Event)
    → new event header ≡ ok e
    → (event.anonymous ≡ false) × (e ≡ fresh event header)
unfolding new
inverted event header e h = elim (Bool-cases event.anonymous) [
  | inl anonymous ↦ ground arith
  | inr named ↦ (named, sym (ok-injective (rw named at h)))
]

-- A query for a named event, whatever addresses and topics are asked of it and in whichever order,
-- still asks for the signature of the event and for the block of the environment; each topic is
-- what was given last for its position.
pub new-topics :
    {H : Type 0} (event : SolEvent) (header : Sealed H) (e : Event) (addresses : List Address)
    (a b c : List B256)
    → new event header ≡ ok e
    → let filter = (topic3 c (topic1 a (with_address addresses (topic2 b e)))).filter in
      (filter.block_hash ≡ some header.seal)
      × (filter.address ≡ addresses)
      × (filter.topics ≡ (event.signature_hash ∷ []) ∷ a ∷ b ∷ c ∷ [])
      × (event.anonymous ≡ false)
unfolding new topic1 topic2 topic3 with_address
new-topics event header e addresses a b c h =
    let (named, made) = inverted event header e h in
    (
      ap (λ (e : Event). e.filter.block_hash) made,
      refl,
      ap (λ (e : Event). replaced e.filter.topics) made,
      named,
    )
  where
    replaced : List (List B256) → List (List B256)
    replaced topics = set (set (set topics 2 b) 1 a) 3 c
