-- ===== src/Host/Proven.antt =====
-- crates/steel/src/host/db/proof.rs, `state_proof`: the tries that it makes, and what the
-- guest looks up in them.
use steel.Prelude.{
  ℕ, ◌≡◌, refl, sym, ap, ◌∙◌, subst, ◌≢◌, All, Bytes, B256, Address, Bool, true, false, Option,
  none, some, List, [], ◌∷◌, arith, bytes_eq, bytes_eq_iff, bytes_eq_refl, bytes_eq→eq,
  if◌then◌else◌,
}
use mathlib.Core.Option.{or_else}
use steel.Prelude.Maps.{
  HashMap, HashSet, lookup, lookup-nil, lookup-cons, lookup-insert_self, insert, lookup-insert,
  values, NodupKeys, later_entry, insert-NodupKeys,
}
use steel.Outcome.{ok, message, ◌>>=◌, >>=-eq-ok, guard->>, ok-injective}
use steel.Codec.{Codec}
use steel.Mpt.Trie.{MerkleTrie, hash_slow, from_rlp_nodes, from_digest}
use steel.State
use steel.State.{collect_by, storage_trie}
use steel.Platform.{Platform, Log}
use steel.Rpc.{Network, context, or_err}
use steel.Host.Provider.{ProviderDb}
use steel.Host.Proof.{ProofDb, AccountProof}
use steel.Host.Proof.Requests.{
  build_trie, add_storage_trie, storage_tries, storage_nodes, recorded_proof, state_proof, is_empty,
  db_block, fetch_all, state_nodes,
}

is_empty-eq : {A : Type 0} (xs : List A) → is_empty xs ≡ true → xs ≡ []
is_empty-eq [] e = refl
is_empty-eq (x ∷ xs) e = cc

pub or_err-eq-ok : {A : Type 0} (o : Option A) (s : _) {a : A} → or_err o s ≡ ok a → o ≡ some a
or_err-eq-ok none s e = cc
or_err-eq-ok (some b) s e = cc

module _ (c : Codec) where
  -- a map of tries by their root hashes
  pub record IsRooted (tries : HashMap MerkleTrie) : Type 0 where
    pub hashed : (r : B256) (t : MerkleTrie) → lookup r tries ≡ some t → hash_slow c t ≡ r
    pub nodup : NodupKeys tries

  insert-IsRooted :
      (tries : HashMap MerkleTrie) (r : B256) (t : MerkleTrie)
      → IsRooted tries
      → hash_slow c t ≡ r
      → IsRooted (insert r t tries)
  insert-IsRooted tries r t good h = record {
    hashed = λ q s e. ground (arith, lookup-insert r q t tries, bytes_eq_iff r q, good.hashed q s);
    nodup = insert-NodupKeys r t tries good.nodup;
  }

  IsRooted-tail :
      (k : B256) (t : MerkleTrie) (tries : HashMap MerkleTrie)
      → IsRooted ((k, t) ∷ tries)
      → IsRooted tries
  IsRooted-tail k t tries good = record {
    hashed = λ r s e. good.hashed r s (later_entry k r t s tries good.nodup.0 e);
    nodup = good.nodup.1;
  }

  IsRooted-head :
      (k : B256) (t : MerkleTrie) (tries : HashMap MerkleTrie)
      → IsRooted ((k, t) ∷ tries)
      → hash_slow c t ≡ k
  IsRooted-head k t tries good =
      good.hashed k t (rw (lookup-cons k k t tries, bytes_eq_refl k) refl)

  -- What the guest collects from the tries of such a map is the map.
  collect_by-values :
      (m : Bytes → Option MerkleTrie) (tries : HashMap MerkleTrie) (r : B256)
      → IsRooted tries
      → collect_by (hash_slow c) m (values tries) r ≡ or_else (lookup r tries) (m r)
  unfolding collect_by values State.insert or_else
  collect_by-values m [] r good = rw (lookup-nil {V = MerkleTrie} r) refl
  collect_by-values m ((k, t) ∷ tries) r good = ground (
    arith,
    lookup-cons k r t tries,
    bytes_eq_iff k r,
    IsRooted-head k t tries good,
    good.nodup.0,
    collect_by-values (State.insert m (hash_slow c t) t) tries r (IsRooted-tail k t tries good),
  )

  -- an account with recorded slots has a proof, and the trie at its storage root
  abbrev pub HasTrie : HashMap AccountProof → HashMap MerkleTrie → Address × HashSet → Type 0
  HasTrie proofs tries (address, slots) =
      slots ≢ []
      → (proof : AccountProof) × (lookup address proofs ≡ some proof)
        × ((t : MerkleTrie) × (lookup proof.account.storage_root tries ≡ some t))

  module _ (fuel : ℕ) where
    add_storage_trie_lem :
        (tries : HashMap MerkleTrie) (proof : AccountProof) (slots : HashSet)
        {tries' : HashMap MerkleTrie}
        → IsRooted tries
        → add_storage_trie c fuel tries proof slots ≡ ok tries'
        → IsRooted tries'
          × ((t : MerkleTrie) × (lookup proof.account.storage_root tries' ≡ some t))
          × ((r : B256) (t : MerkleTrie)
              → lookup r tries ≡ some t
              → (u : MerkleTrie) × (lookup r tries' ≡ some u))
    unfolding add_storage_trie
    add_storage_trie_lem tries proof slots good e =
        let root = proof.account.storage_root in
        let (trie, p, q) =
          >>=-eq-ok
            (build_trie c fuel (lookup root tries) (storage_nodes proof.storage_proofs slots)) _
            e in
        let (same, r) =
          guard->> (bytes_eq (hash_slow c trie) root) (message "storage root mismatch")
            (ok (insert root trie tries)) q in
        rw (sym (ok-injective r)) (
          insert-IsRooted tries root trie good (bytes_eq→eq _ _ same),
          (trie, lookup-insert_self root trie tries),
          λ s t h. kept trie s t h (bytes_eq root s) (lookup-insert root s trie tries),
        )
      where
        kept :
            (trie : MerkleTrie) (s : B256) (t : MerkleTrie)
            → lookup s tries ≡ some t
            → (b : Bool)
            → lookup s (insert proof.account.storage_root trie tries)
              ≡ (if b then some trie else lookup s tries)
            → (u : MerkleTrie) × (lookup s (insert proof.account.storage_root trie tries) ≡ some u)
        kept trie s t h true e = (trie, e)
        kept trie s t h false e = (t, e ∙ h)

    storage_tries_lem :
        (proofs : HashMap AccountProof) (tries : HashMap MerkleTrie) (accounts : HashMap HashSet)
        {tries' : HashMap MerkleTrie}
        → IsRooted tries
        → storage_tries c fuel proofs tries accounts ≡ ok tries'
        → IsRooted tries'
          × ((r : B256) (t : MerkleTrie)
              → lookup r tries ≡ some t
              → (u : MerkleTrie) × (lookup r tries' ≡ some u))
          × All (HasTrie proofs tries') accounts
    unfolding storage_tries
    storage_tries_lem proofs tries [] good e = rw (sym (ok-injective e)) (good, λ r t h. (t, h), tt)
    storage_tries_lem proofs tries ((address, []) ∷ accounts) good e =
        let (x, y, z) = storage_tries_lem proofs tries accounts good e in
        (x, y, ((λ h. absurd (h refl)), z))
    storage_tries_lem proofs tries ((address, (slot ∷ slots)) ∷ accounts) good e =
        let (proof, p, q) =
          >>=-eq-ok (or_err (lookup address proofs) "called `Option::unwrap()` on a `None` value") _
            e in
        let (tries1, p1, q1) = >>=-eq-ok (add_storage_trie c fuel tries proof (slot ∷ slots)) _ q in
        let (good1, (t, has), keeps1) = add_storage_trie_lem tries proof (slot ∷ slots) good p1 in
        let (x, y, z) = storage_tries_lem proofs tries1 accounts good1 q1 in
        (
          x,
          λ r s h. (let (u, h') = keeps1 r s h in y r u h'),
          (
            (λ h. (
              proof,
              or_err-eq-ok (lookup address proofs) _ p,
              y proof.account.storage_root t has,
            )),
            z,
          ),
        )

    -- What the guest reads of the tries that a proof came with.
    abbrev pub IsProven :
        {HR RR : Type 0}
        → ProofDb (ProviderDb HR RR)
        → (B256 → Option MerkleTrie)
        → Address × HashSet
        → Type 0
    IsProven db tries (address, slots) =
        slots ≢ []
        → (proof : AccountProof) × (trie : MerkleTrie) × (lookup address db.proofs ≡ some proof)
          × (tries proof.account.storage_root ≡ some trie)
          × (hash_slow c trie ≡ proof.account.storage_root)

    HasTrie-IsProven :
        {HR RR : Type 0} (db : ProofDb (ProviderDb HR RR)) (tries : HashMap MerkleTrie)
        (accounts : HashMap HashSet)
        → IsRooted tries
        → All (HasTrie db.proofs tries) accounts
        → All (IsProven db (collect_by (hash_slow c) (λ k. none) (values tries))) accounts
    unfolding or_else
    HasTrie-IsProven db tries [] good all = tt
    HasTrie-IsProven db tries ((address, slots) ∷ accounts) good (has, all) = (
      λ h.
          (let (proof, p, (t, q)) = has h in
            let root = proof.account.storage_root in
            (
              proof,
              t,
              p,
              collect_by-values (λ k. none) tries root good ∙ ap (λ o. or_else o none) q,
              good.hashed root t q,
            )),
      HasTrie-IsProven db tries accounts good all,
    )

module _ {HR RR H R : Type 0} (net : Network HR RR H R) (p : Platform) (fuel : ℕ) where
  recorded_proof-IsProven :
      (db db' : ProofDb (ProviderDb HR RR)) (state_trie : MerkleTrie) (tries : List MerkleTrie)
      (contracts : List Bytes) (hashes : ℕ → Option B256) (logs : Option (List Log))
      → recorded_proof net p.codec fuel db ≡ ok ((state_trie, tries), db')
      → All
          (IsProven p.codec fuel db'
            (storage_trie (State.new p state_trie tries contracts hashes logs)))
          db.accounts
  unfolding recorded_proof State.new storage_trie
  recorded_proof-IsProven db db' state_trie tries contracts hashes logs e =
      let (proofs, p1, q1) = >>=-eq-ok (fetch_all p.codec db.inner db.proofs db.accounts) _ e in
      let (trie, p2, q2) =
        >>=-eq-ok
          (context (from_rlp_nodes p.codec fuel (state_nodes proofs db.accounts))
            "accountProof invalid")
          _ q1 in
      let (made, p3, q3) = >>=-eq-ok (storage_tries p.codec fuel proofs [] db.accounts) _ q2 in
      let empty : IsRooted p.codec [] = record {
        hashed = λ r t h. cc (lookup-nil {V = MerkleTrie} r);
        nodup = tt;
      } in
      let (good, _, all) = storage_tries_lem p.codec fuel proofs [] db.accounts empty p3 in
      let same = ok-injective q3 in
      subst
        (λ r.
          All (IsProven p.codec fuel r.1 (collect_by (hash_slow p.codec) (λ k. none) r.0.1))
            db.accounts)
        same
        (HasTrie-IsProven p.codec fuel (record db { proofs = proofs }) made db.accounts good all)

  -- After the proof of all that a run recorded, each account with recorded slots has its account
  -- proof, and the database that the guest makes of the tries finds, at the storage root of that
  -- account, a trie with this root.
  pub state_proof-IsProven :
      (db db' : ProofDb (ProviderDb HR RR)) (state_trie : MerkleTrie) (tries : List MerkleTrie)
      (contracts : List Bytes) (hashes : ℕ → Option B256) (logs : Option (List Log))
      → state_proof net p.codec fuel db ≡ ok ((state_trie, tries), db')
      → All
          (IsProven p.codec fuel db'
            (storage_trie (State.new p state_trie tries contracts hashes logs)))
          db.accounts
  unfolding state_proof
  state_proof-IsProven db db' state_trie tries contracts hashes logs e =
      let (_, q) = guard->> _ (message "no accounts accessed: use Contract::preflight") _ e in
      at (is_empty db.accounts) refl q
    where
      at :
          (b : Bool)
          → is_empty db.accounts ≡ b
          → (if b
              then (do
                header ← db_block net db.inner
                ok ((from_digest (net.state_root header), []), db))
              else recorded_proof net p.codec fuel db)
            ≡ ok ((state_trie, tries), db')
          → All
              (IsProven p.codec fuel db'
                (storage_trie (State.new p state_trie tries contracts hashes logs)))
              db.accounts
      at true empty r = rw (is_empty-eq db.accounts empty) tt
      at false more r = recorded_proof-IsProven db db' state_trie tries contracts hashes logs r
