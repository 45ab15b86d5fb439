-- ===== src/Host/Ancestry.antt =====
-- crates/steel/src/host/db/proof.rs, `ancestor_proof`, and crates/steel/src/block.rs: the headers that
-- the host sends for the block hashes of a run.
use steel.Prelude.{
  ℕ, zero, suc, ◌-◌, ◌≤◌, ◌<◌, ◌≡◌, refl, true, false, none, some, List, [], ◌∷◌, arith,
  bytes_eq_refl, le→leb,
}
use steel.Prelude.Maps.{contains_number}
use steel.Outcome.{ok}
use steel.Header.{EvmBlockHeader}
use steel.State.{insert_at}
use steel.Block.{BlockHashes, link_ancestors}
use steel.Rpc.{Network, Provider, number}
use steel.Host.Provider.{ProviderDb}
use steel.Host.Proof.{ProofDb}
use steel.Host.Proof.Requests.{fetch_ancestors, least, ancestors_from, ancestor_proof}

-- the chain that a node serves: the header of each number, which names its parent
pub record Chain {H HR RR R : Type 0} (ops : EvmBlockHeader H) (net : Network HR RR H R)
    (node : Provider HR RR) (header : ℕ → H) (response : ℕ → HR) : Type 0 where
  pub served : (n : ℕ) → node.get_block (number n) ≡ ok (some (response n))
  pub converted : (n : ℕ) → net.try_header (response n) ≡ ok (header n)
  pub numbered : (n : ℕ) → ops.number (header n) ≡ n
  pub linked : (n : ℕ) → ops.parent_hash (header (suc n)) ≡ ops.hash_slow (header n)

-- the `count` headers before a number, from the last to the first
unfoldable pub below : {A : Type 0} → (ℕ → A) → ℕ → ℕ → List A
below f zero n = []
below f (suc count) n = f (n - 1) ∷ below f count (n - 1)

module _ {H HR RR R : Type 0} (ops : EvmBlockHeader H) (net : Network HR RR H R)
    (inner : ProviderDb HR RR) (header : ℕ → H) (response : ℕ → HR)
    (chain : Chain ops net inner.provider header response) where
  fetch_ancestors_lem : (count n : ℕ) → fetch_ancestors inner count n ≡ ok (below response count n)
  unfolding fetch_ancestors below
  fetch_ancestors_lem zero n = refl
  fetch_ancestors_lem (suc count) n =
      rw (chain.served (n - 1), fetch_ancestors_lem count (n - 1)) refl

  link_ancestors_lem :
      (count n : ℕ) (hashes : BlockHashes)
      → count ≤ n
      → (hashes' : BlockHashes) × (link_ancestors ops (header n) (below header count n) hashes
          ≡ ok hashes')
        × ((k : ℕ) → n - count ≤ k → k < n → hashes' k ≡ some (ops.hash_slow (header k)))
        × ((k : ℕ) → n ≤ k → hashes' k ≡ hashes k)
  unfolding link_ancestors below insert_at
  link_ancestors_lem zero n hashes h = (hashes, refl, λ k p q. absurd (omega arith), λ k p. refl)
  link_ancestors_lem (suc count) zero hashes h = absurd (omega arith)
  link_ancestors_lem (suc count) (suc n) hashes h =
      let (hashes', e, inside, outside) =
        link_ancestors_lem count n
          (insert_at hashes (ops.number (header n)) (ops.hash_slow (header n))) (omega arith) in
      let back : suc n - 1 ≡ n = omega arith in
      (
        hashes',
        rw (back, chain.linked n, bytes_eq_refl (ops.hash_slow (header n))) e,
        λ k p q. ground (arith, inside k, outside k, chain.numbered n),
        λ k p. ground (arith, outside k, chain.numbered n),
      )

least-le : (n : ℕ) (ks : List ℕ) (k : ℕ) → contains_number k (n ∷ ks) ≡ true → least n ks ≤ k
unfolding least contains_number
least-le n [] k h = ground arith
least-le n (j ∷ ks) k h =
    ground (arith, least-le j ks k, least-le n ks k, least-le j ks j, least-le n ks n)

least-contains : (n : ℕ) (ks : List ℕ) → contains_number (least n ks) (n ∷ ks) ≡ true
unfolding least contains_number
least-contains n [] = ground arith
least-contains n (j ∷ ks) = ground (arith, least-contains j ks, least-contains n ks)

contains_number-nil : (k : ℕ) → contains_number k [] ≡ false
unfolding contains_number
contains_number-nil k = refl

module _ {H HR RR R : Type 0} (ops : EvmBlockHeader H) (net : Network HR RR H R) (header : ℕ → H)
    (response : ℕ → HR) where
  -- the headers that the host fetches, the guest accepts, and the hashes that it then knows
  abbrev pub Proves : ProviderDb HR RR → List ℕ → ℕ → Type 0
  Proves inner ks n =
      (count : ℕ) × (hashes : BlockHashes) × (count ≤ n)
      × (ancestors_from inner ks n ≡ ok (below response count n))
      × (link_ancestors ops (header n) (below header count n)
            (insert_at (λ k. none) n (ops.hash_slow (header n)))
          ≡ ok hashes)
      × ((k : ℕ) → contains_number k ks ≡ true → hashes k ≡ some (ops.hash_slow (header k)))

  ancestors_from_lem :
      (inner : ProviderDb HR RR) (ks : List ℕ) (n : ℕ)
      → Chain ops net inner.provider header response
      → ((k : ℕ) → contains_number k ks ≡ true → k ≤ n)
      → Proves inner ks n
  unfolding ancestors_from insert_at
  ancestors_from_lem inner [] n chain early =
      let (hashes, e, inside, outside) =
        link_ancestors_lem ops net inner header response chain 0 n
          (insert_at (λ k. none) n (ops.hash_slow (header n))) (omega arith) in
      (
        0,
        hashes,
        omega arith,
        fetch_ancestors_lem ops net inner header response chain 0 n,
        e,
        λ k h. cc (contains_number-nil k),
      )
  ancestors_from_lem inner (j ∷ ks) n chain early =
      let low : least j ks ≤ n = early (least j ks) (least-contains j ks) in
      let (hashes, e, inside, outside) =
        link_ancestors_lem ops net inner header response chain (n - least j ks) n
          (insert_at (λ k. none) n (ops.hash_slow (header n))) (omega arith) in
      (
        n - least j ks,
        hashes,
        omega arith,
        rw (le→leb _ _ low)
            (fetch_ancestors_lem ops net inner header response chain (n - least j ks) n),
        e,
        λ k h. ground (arith, inside k, outside k, early k h, least-le j ks k h),
      )

  -- Where the node serves a chain, and no number that a run asked for lies behind the block `n` of
  -- the run, the ancestors that the host fetches are a chain that the guest accepts, and the guest
  -- then knows, for each number asked for, the hash of the block of that number.
  pub ancestor_proof-link_ancestors :
      (db : ProofDb (ProviderDb HR RR)) (n : ℕ)
      → Chain ops net db.inner.provider header response
      → ((k : ℕ) → contains_number k db.block_hash_numbers ≡ true → k ≤ n)
      → (count : ℕ) × (hashes : BlockHashes) × (count ≤ n)
        × (ancestor_proof db n ≡ ok (below response count n))
        × (link_ancestors ops
              (header n)
              (below header count n)
              (insert_at (λ k. none) n (ops.hash_slow (header n)))
            ≡ ok hashes)
        × ((k : ℕ)
            → contains_number k db.block_hash_numbers ≡ true
            → hashes k ≡ some (ops.hash_slow (header k)))
  unfolding ancestor_proof
  ancestor_proof-link_ancestors db n chain early =
      ancestors_from_lem db.inner db.block_hash_numbers n chain early
