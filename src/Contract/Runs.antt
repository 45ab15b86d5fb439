-- ===== src/Contract/Runs.antt =====
-- crates/steel/src/contract.rs on the host: what a call asks, and what is recorded of it.
use steel.Prelude.Maps.{lookup}
use steel.Codec.{Codec}
use steel.Words.{to_be_bytes}
use steel.Rpc.{Network}
use steel.Prelude.{ℕ, Address, some, ◌≡◌, refl, sym, ap, List, [], ◌∷◌}
use steel.Outcome.{Outcome, ok, err, panic, out_of_fuel, ◌>>=◌, >>=-eq-ok, ok-injective}
use steel.Host.Database.{Database, Query, Answer, ask, ask_all}
use steel.Host.Proof.{ProofDb, StorageProof, loaded, proof_db}
use steel.Host.Provider
use steel.Host.Provider.{ProviderDb, provider_db}
use steel.Host.Node.{SameNode, ask-SameNode}
use steel.Host.Transparent.{forget, Stays, Agrees, ask_lem, ask-proofs}
use steel.Contract.{Run, done, fails, asks, drive, SolCall, ExecutionResult, settle, call}

abbrev pub queries_of : Outcome (List Query) → List Query
queries_of (ok queries) = queries
queries_of (err e) = []
queries_of (panic m) = []
queries_of out_of_fuel = []

-- the queries that a run makes of a database
unfoldable pub asked : {D R : Type 0} → Database D → D → Run R → List Query
unfolding ask
asked ops d (done r) = []
asked ops d (fails e) = []
asked ops d (asks q next) = q ∷ queries_of (ask ops d q >>= λ (a, d'). ok (asked ops d' (next a)))

asked-asks :
    {D R : Type 0} (ops : Database D) (d d1 d' : D) (q : Query) (next : Answer → Run R) (a : Answer)
    (answers : List Answer)
    → ask ops d q ≡ ok (a, d1)
    → ask_all ops d1 (asked ops d1 (next a)) ≡ ok (answers, d')
    → ask_all ops d (asked ops d (asks q next)) ≡ ok (a ∷ answers, d')
unfolding asked ask_all
asked-asks ops d d1 d' q next a answers p t = rw (p, t) refl

-- A run that ends has asked its queries one after the other.
pub drive-ask_all :
    {D R : Type 0} (ops : Database D) (d : D) (run : Run R) {r : R} {d' : D}
    → drive ops d run ≡ ok (r, d')
    → (answers : List Answer) × (ask_all ops d (asked ops d run) ≡ ok (answers, d'))
unfolding drive asked ask_all
drive-ask_all ops d (done r) e = ([], ap ok (ap (λ t. ([], t.1)) (ok-injective e)))
drive-ask_all ops d (fails x) e = cc
drive-ask_all ops d (asks q next) {d' = d'} e =
    let ((a, d1), p, h) = >>=-eq-ok (ask ops d q) _ e in
    let (answers, t) = drive-ask_all ops d1 (next a) h in
    (a ∷ answers, asked-asks ops d d1 d' q next a answers p t)

module _ {D R : Type 0} (ops : Database D) (Keeps : D → Type 0) (stays : Stays ops Keeps) where
  -- A run on the recording database ends as one on the database that it wraps.
  pub drive-proof_db :
      (db : ProofDb D) (run : Run R)
      → Keeps db.inner
      → Agrees ops Keeps db.proofs
      → forget (drive (proof_db ops) db run) ≡ drive ops db.inner run
  unfolding drive
  drive-proof_db db (done r) kept agrees = refl
  drive-proof_db db (fails x) kept agrees = refl
  drive-proof_db db (asks q next) kept agrees =
      after (λ a db'. drive-proof_db db' (next a)) (ask (proof_db ops) db q) refl
        (ask_lem ops Keeps db q kept agrees)
    where
      after :
          ((a : Answer) (db' : ProofDb D)
            → Keeps db'.inner
            → Agrees ops Keeps db'.proofs
            → forget (drive (proof_db ops) db' (next a)) ≡ drive ops db'.inner (next a))
          → (r : Outcome (Answer × ProofDb D)) → ask (proof_db ops) db q ≡ r
          → forget r ≡ ask ops db.inner q
          → forget (drive (proof_db ops) db (asks q next)) ≡ drive ops db.inner (asks q next)
      after again (ok (a, db')) e f =
          rw (e, sym f)
            (again a db' (stays db.inner q a db'.inner kept (sym f))
              (rw (ask-proofs ops db q e) agrees))
      after again (err x) e f = rw (e, sym f) refl
      after again (panic x) e f = rw (e, sym f) refl
      after again out_of_fuel e f = rw (e, sym f) refl

module _ {HR RR H R A Halt : Type 0} (c : Codec) (net : Network HR RR H R)
    (db : ProofDb (ProviderDb HR RR)) (sol : SolCall A) (run : Run (ExecutionResult Halt)) where
  -- A call on the recording database over a node ends as a call on the node's database alone: with
  -- the same result, error or panic and the same state of the node's database, as long as each
  -- value in the proofs that are loaded is the one that the node tells for its slot at the block.
  pub call-proof_db :
      ((a : Address) (i : ℕ) (p : StorageProof)
        → lookup (to_be_bytes 32 i) (loaded (lookup a db.proofs)) ≡ some p
        → db.inner.provider.get_storage_at a i db.inner.block ≡ ok p.value)
      → (call (proof_db (provider_db c net)) db sol run >>= λ (result, after).
          ok (result, after.inner))
        ≡ call (provider_db c net) db.inner sol run
  unfolding call provider_db Provider.storage
  call-proof_db told =
      rw
        (sym (
          drive-proof_db (provider_db c net) (SameNode db.inner)
            (λ d q a d' kept e. ask-SameNode c net db.inner d q kept e) db run (refl, refl) agrees))
        (both (drive (proof_db (provider_db c net)) db run))
    where
      agrees : Agrees (provider_db c net) (SameNode db.inner) db.proofs
      agrees a i p e d (node, block) = rw (node, block, told a i p e) refl

      both :
          (r : Outcome (ExecutionResult Halt × ProofDb (ProviderDb HR RR)))
          → forget (r >>= λ (result, d'). ok (settle sol result, d'))
            ≡ (forget r >>= λ (result, d'). ok (settle sol result, d'))
      both (ok r) = refl
      both (err x) = refl
      both (panic x) = refl
      both out_of_fuel = refl
