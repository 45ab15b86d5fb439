-- ===== src/Host/Node.antt =====
-- crates/steel/src/host/db: a run asks one node, at one block.
use steel.Prelude.{ℕ, ◌≡◌, sym, ap, ◌∙◌, Bytes, List, [], ◌∷◌, arith, ◌⊎◌, Option-cases, inl, inr}
use steel.Prelude.Maps.{lookup}
use steel.Words.{to_be_bytes}
use steel.Outcome.{ok, ◌>>=◌, >>=-eq-ok, ok-injective}
use steel.Codec.{Codec}
use steel.Rpc.{Network, context}
use steel.Host.Database.{Database, Query, Answer, ask, ask_all}
use steel.Host.Provider
use steel.Host.Provider.{ProviderDb, provider_db, index_code}
use steel.Host.Proof
use steel.Host.Proof.{ProofDb, proof_db, loaded, read_value}

module _ {D : Type 0} (ops : Database D) where
  -- A query of the database that records is one of the wrapped database, or leaves that as it is.
  ask-inner :
      (db : ProofDb D) (q : Query) {a : Answer} {db' : ProofDb D}
      → ask (proof_db ops) db q ≡ ok (a, db')
      → (db'.inner ≡ db.inner) ⊎ ((b : Answer) × (ask ops db.inner q ≡ ok (b, db'.inner)))
  unfolding ask proof_db Proof.basic Proof.code_by_hash Proof.storage Proof.block_hash Proof.logs
      read_value
  ask-inner db (Query.basic a) {db' = db'} e =
      let ((x, d), p, q) = >>=-eq-ok (Proof.basic ops db a) _ e in
      let ((y, inner), p', q') = >>=-eq-ok (ops.basic db.inner a) _ p in
      let same : inner ≡ db'.inner =
        ap (λ t. t.1.inner) (ok-injective q') ∙ ap (λ t. t.1.inner) (ok-injective q) in
      inr (
        Answer.info y,
        ap (λ m. m >>= λ (z, d'). ok (Answer.info z, d')) p'
            ∙ ap (λ d'. ok (Answer.info y, d')) same,
      )
  ask-inner db (Query.code_by_hash h) {db' = db'} e =
      let ((x, d), p, q) = >>=-eq-ok (Proof.code_by_hash ops db h) _ e in
      let ((y, inner), p', q') = >>=-eq-ok (ops.code_by_hash db.inner h) _ p in
      let same : inner ≡ db'.inner =
        ap (λ t. t.1.inner) (ok-injective q') ∙ ap (λ t. t.1.inner) (ok-injective q) in
      inr (
        Answer.code y,
        ap (λ m. m >>= λ (z, d'). ok (Answer.code z, d')) p'
            ∙ ap (λ d'. ok (Answer.code y, d')) same,
      )
  ask-inner db (Query.storage a i) {db' = db'} e =
      let ((x, d), p, q) = >>=-eq-ok (Proof.storage ops db a i) _ e in
      let found = lookup (to_be_bytes 32 i) (loaded (lookup a db.proofs)) in
      let ((y, inner), p', q') = >>=-eq-ok (read_value ops db.inner a i found) _ p in
      let same : inner ≡ db'.inner =
        ap (λ t. t.1.inner) (ok-injective q') ∙ ap (λ t. t.1.inner) (ok-injective q) in
      elim (Option-cases found) [
        | inr (value, known) ↦
            let read = rw known at p' in inl (sym same ∙ sym (ap (λ t. t.1) (ok-injective read)))
        | inl none ↦
            let read = rw none at p' in
            inr (
              Answer.value y,
              ap (λ m. m >>= λ (z, d'). ok (Answer.value z, d')) read
                  ∙ ap (λ d'. ok (Answer.value y, d')) same,
            )
      ]
  ask-inner db (Query.block_hash n) {db' = db'} e =
      let ((x, d), p, q) = >>=-eq-ok (Proof.block_hash ops db n) _ e in
      let ((y, inner), p', q') = >>=-eq-ok (ops.block_hash db.inner n) _ p in
      let same : inner ≡ db'.inner =
        ap (λ t. t.1.inner) (ok-injective q') ∙ ap (λ t. t.1.inner) (ok-injective q) in
      inr (
        Answer.hash y,
        ap (λ m. m >>= λ (z, d'). ok (Answer.hash z, d')) p'
            ∙ ap (λ d'. ok (Answer.hash y, d')) same,
      )
  ask-inner db (Query.logs f) {db' = db'} e =
      let ((x, d), p, q) = >>=-eq-ok (Proof.logs ops db f) _ e in
      let ((y, inner), p', q') = >>=-eq-ok (ops.logs db.inner f) _ p in
      let same : inner ≡ db'.inner =
        ap (λ t. t.1.inner) (ok-injective q') ∙ ap (λ t. t.1.inner) (ok-injective q) in
      inr (
        Answer.found y,
        ap (λ m. m >>= λ (z, d'). ok (Answer.found z, d')) p'
            ∙ ap (λ d'. ok (Answer.found y, d')) same,
      )

module _ {HR RR : Type 0} where
  -- the node and the block of a database
  abbrev pub SameNode : ProviderDb HR RR → ProviderDb HR RR → Type 0
  SameNode db db' = (db'.provider ≡ db.provider) × (db'.block ≡ db.block)

module _ {HR RR H R : Type 0} (c : Codec) (net : Network HR RR H R) where
  index_code-SameNode :
      (db : ProviderDb HR RR) (nonce balance : ℕ) (code : Bytes)
      → SameNode db (index_code c db nonce balance code).1
  unfolding index_code
  index_code-SameNode db nonce balance code = ground arith

  -- A query leaves the node and the block as they are.
  query-SameNode :
      (db : ProviderDb HR RR) (q : Query) {a : Answer} {db' : ProviderDb HR RR}
      → ask (provider_db c net) db q ≡ ok (a, db')
      → SameNode db db'
  unfolding ask provider_db Provider.basic Provider.code_by_hash Provider.storage
      Provider.block_hash Provider.logs
  query-SameNode db (Query.basic a) e =
      let ((i, d), p, q) = >>=-eq-ok (Provider.basic c db a) _ e in
      let (nonce, _, q1) =
        >>=-eq-ok
          (context (db.provider.get_transaction_count a db.block) "eth_getTransactionCount failed")
          _ p in
      let (balance, _, q2) =
        >>=-eq-ok (context (db.provider.get_balance a db.block) "eth_getBalance failed") _ q1 in
      let (code, _, q3) =
        >>=-eq-ok (context (db.provider.get_code_at a db.block) "eth_getCode failed") _ q2 in
      let (x, y) = index_code-SameNode db nonce balance code in
      let same = ap (λ r. r.1) (ok-injective q3) ∙ ap (λ r. r.1) (ok-injective q) in
      (sym (ap (λ r. r.provider) same) ∙ x, sym (ap (λ r. r.block) same) ∙ y)
  query-SameNode db (Query.code_by_hash h) e = (ground arith, ground arith)
  query-SameNode db (Query.storage a i) e = (ground arith, ground arith)
  query-SameNode db (Query.block_hash n) e = (ground arith, ground arith)
  query-SameNode db (Query.logs f) e = (ground arith, ground arith)

  pub ask-SameNode :
      (first db : ProviderDb HR RR) (q : Query) {a : Answer} {db' : ProviderDb HR RR}
      → SameNode first db
      → ask (provider_db c net) db q ≡ ok (a, db')
      → SameNode first db'
  ask-SameNode first db q (node, block) e =
      let (x, y) = query-SameNode db q e in (x ∙ node, y ∙ block)

  -- So does a run on the database that records.
  pub ask_all-SameNode :
      (db : ProofDb (ProviderDb HR RR)) (queries : List Query) {answers : List Answer}
      {db' : ProofDb (ProviderDb HR RR)}
      → ask_all (proof_db (provider_db c net)) db queries ≡ ok (answers, db')
      → SameNode db.inner db'.inner
  unfolding ask_all
  ask_all-SameNode db [] e =
      let same = ap (λ r. r.1.inner) (ok-injective e) in
      (sym (ap (λ d. d.provider) same), sym (ap (λ d. d.block) same))
  ask_all-SameNode db (q ∷ queries) {db' = db'} e =
      let ops = proof_db (provider_db c net) in
      let ((a, d), p, r) = >>=-eq-ok (ask ops db q) _ e in
      let ((answers, d'), p', r') = >>=-eq-ok (ask_all ops d queries) _ r in
      let (x, y) = ask_all-SameNode d queries p' in
      let (node, block) = once d (ask-inner (provider_db c net) db q p) in
      let same = ap (λ t. t.1.inner) (ok-injective r') in
      (sym (ap (λ s. s.provider) same) ∙ x ∙ node, sym (ap (λ s. s.block) same) ∙ y ∙ block)
    where
      once :
          (d : ProofDb (ProviderDb HR RR))
          → (d.inner ≡ db.inner)
            ⊎ ((b : Answer) × (ask (provider_db c net) db.inner q ≡ ok (b, d.inner)))
          → SameNode db.inner d.inner
      once d (inl same) = (ap (λ s. s.provider) same, ap (λ s. s.block) same)
      once d (inr (b, asked)) = query-SameNode db.inner q asked
