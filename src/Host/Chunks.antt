-- ===== src/Host/Chunks.antt =====
-- crates/steel/src/host/db/provider.rs, `get_proof`: requests for a proof in chunks.
use steel.Prelude.{
  ℕ, zero, suc, ◌-◌, ◌≡◌, ◌≤◌, ◌<◌, refl, ap, sym, B256, Bytes, Address, List, [], ◌∷◌, ◌++◌,
  length, map, All, arith, append_assoc, append-nil, true, bytes_eq_refl,
}
use mathlib.Core.List.{map-append}
use steel.Prelude.Maps.{all_equal}
use steel.Outcome.{ok}
use steel.Rpc.{ProofResponse, StorageProofResponse}
use steel.Host.Provider.{
  ProviderDb, split_chunks, chunks, extend_proof, request, get_proof, sort, first_chunk,
  other_chunks,
}

unfoldable pub concat : List (List B256) → List B256
concat [] = []
concat (c ∷ cs) = c ++ concat cs

concat-split_chunks :
    (size room : ℕ) (ks : List B256)
    → (split_chunks size room ks).0 ++ concat (split_chunks size room ks).1 ≡ ks
unfolding split_chunks concat
concat-split_chunks size room [] = refl
concat-split_chunks size zero (k ∷ ks) = ap (λ l. k ∷ l) (concat-split_chunks size (size - 1) ks)
concat-split_chunks size (suc room) (k ∷ ks) = ap (λ l. k ∷ l) (concat-split_chunks size room ks)

split_chunks_fit :
    (size room : ℕ) (ks : List B256)
    → 0 < size
    → (length (split_chunks size room ks).0 ≤ room)
      × All (λ c. length c ≤ size) (split_chunks size room ks).1
unfolding split_chunks
split_chunks_fit size room [] h = (omega arith, tt)
split_chunks_fit size zero (k ∷ ks) h =
    let (p, q) = split_chunks_fit size (size - 1) ks h in (omega arith, (omega arith, q))
split_chunks_fit size (suc room) (k ∷ ks) h =
    let (p, q) = split_chunks_fit size room ks h in (omega arith, q)

-- With a chunk size that is not 0 the chunks hold the keys in their order, none of them more than
-- the size.
pub chunks_lem :
    (size : ℕ) (ks : List B256)
    → 0 < size
    → (cs : List (List B256)) × (chunks size ks ≡ ok cs)
      × (concat cs ≡ ks)
      × All (λ c. length c ≤ size) cs
unfolding chunks concat
chunks_lem zero ks h = absurd (omega arith)
chunks_lem (suc n) [] h = ([], refl, refl, tt)
chunks_lem (suc n) (k ∷ ks) h =
    let (p, q) = split_chunks_fit (suc n) n ks h in
    (
      (k ∷ (split_chunks (suc n) n ks).0) ∷ (split_chunks (suc n) n ks).1,
      refl,
      ap (λ l. k ∷ l) (concat-split_chunks (suc n) n ks),
      (omega arith, q),
    )

first-other : (cs : List (List B256)) → first_chunk cs ++ concat (other_chunks cs) ≡ concat cs
unfolding concat
first-other [] = refl
first-other (c ∷ cs) = refl

all_equal_refl : (x : List Bytes) → all_equal x x ≡ true
unfolding all_equal
all_equal_refl [] = refl
all_equal_refl (a ∷ x) = ground (arith, bytes_eq_refl a, all_equal_refl x)

module _ {HR RR : Type 0} (db : ProviderDb HR RR) (address : Address) (base : ProofResponse)
    (slot : B256 → StorageProofResponse) where
  abbrev answer : List B256 → ProofResponse
  answer ks = record base { storage_proof = map slot ks }

  -- The node answers each key by itself, in the order of the request.
  abbrev pub AnswersEach : Type 0
  AnswersEach =
      (ks : List B256)
      → db.provider.get_proof address ks db.block ≡ ok (record base { storage_proof = map slot ks })

  module _ (each : AnswersEach) where
    request_lem : (ks : List B256) → request db address ks ≡ ok (answer ks)
    unfolding request
    request_lem ks = rw (each ks) refl

    extend_proof_lem :
        (done : List B256) (cs : List (List B256))
        → extend_proof db address (answer done) cs ≡ ok (answer (done ++ concat cs))
    unfolding extend_proof concat
    extend_proof_lem done [] = rw append-nil refl
    extend_proof_lem done (ks ∷ cs) =
        rw (request_lem ks, all_equal_refl base.account_proof)
          (rw (sym (map-append slot done ks), sym (append_assoc done ks (concat cs)))
            (extend_proof_lem (done ++ ks) cs))

    get_proof_lem :
        (ks : List B256) → 0 < db.chunk_size → get_proof db address ks ≡ ok (answer (sort ks))
    unfolding get_proof
    get_proof_lem ks h =
        let (cs, e, p, _) = chunks_lem db.chunk_size (sort ks) h in
        rw (e, request_lem (first_chunk cs))
          (rw (extend_proof_lem (first_chunk cs) (other_chunks cs), first-other cs, p) refl)

-- Where the node answers each key by itself, the requests in chunks of any size but 0 give what one
-- request for all the sorted keys gives.
pub get_proof-chunks :
    {HR RR : Type 0} (db : ProviderDb HR RR) (address : Address) (base : ProofResponse)
    (slot : B256 → StorageProofResponse) (ks : List B256)
    → AnswersEach db address base slot
    → 0 < db.chunk_size
    → get_proof db address ks ≡ db.provider.get_proof address (sort ks) db.block
get_proof-chunks db address base slot ks each h =
    rw (each (sort ks)) (get_proof_lem db address base slot each ks h)
