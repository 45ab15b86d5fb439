-- ===== src/Host/Transparent.antt =====
-- crates/steel/src/host/db/proof.rs: the recording database and the one that it wraps.
use steel.Prelude.{ℕ, ◌≡◌, refl, sym, Address, some, arith, Option-cases, inl, inr}
use steel.Prelude.Maps.{HashMap, lookup}
use steel.Outcome.{Outcome, ok, ◌>>=◌}
use steel.Words.{to_be_bytes}
use steel.Host.Database.{Database, Query, Answer, ask}
use steel.Host.Proof.{
  ProofDb, AccountProof, StorageProof, loaded, read_value, proof_db, basic, code_by_hash, storage,
  block_hash, logs,
}

-- a result without what the database recorded
abbrev pub forget : {A D : Type 0} → Outcome (A × ProofDb D) → Outcome (A × D)
forget m = m >>= λ (a, db). ok (a, db.inner)

-- `Keeps` is what holds of the states that a run on the wrapped database goes through.
module _ {D : Type 0} (ops : Database D) (Keeps : D → Type 0) where
  -- each query leaves it so
  abbrev pub Stays : Type 0
  Stays = (d : D) (q : Query) (a : Answer) (d' : D) → Keeps d → ask ops d q ≡ ok (a, d') → Keeps d'

  -- A value that is loaded is the one that the wrapped database reads, without a change of its state.
  abbrev pub Agrees : HashMap AccountProof → Type 0
  Agrees proofs =
      (a : Address) (i : ℕ) (p : StorageProof)
      → lookup (to_be_bytes 32 i) (loaded (lookup a proofs)) ≡ some p
      → (d : D) → Keeps d
      → ops.storage d a i ≡ ok (p.value, d)

  read_value_lem :
      (proofs : HashMap AccountProof) (d : D) (a : Address) (i : ℕ)
      → Keeps d
      → Agrees proofs
      → read_value ops d a i (lookup (to_be_bytes 32 i) (loaded (lookup a proofs)))
        ≡ ops.storage d a i
  unfolding read_value
  read_value_lem proofs d a i kept agrees =
      elim (Option-cases (lookup (to_be_bytes 32 i) (loaded (lookup a proofs)))) [
        | inl e ↦ rw e refl
        | inr (p, e) ↦ rw e (sym (agrees a i p e d kept))
      ]

  pub ask_lem :
      (db : ProofDb D) (q : Query)
      → Keeps db.inner
      → Agrees db.proofs
      → forget (ask (proof_db ops) db q) ≡ ask ops db.inner q
  unfolding ask proof_db basic code_by_hash storage block_hash logs
  ask_lem db (Query.basic a) kept agrees = ground arith
  ask_lem db (Query.code_by_hash h) kept agrees = ground arith
  ask_lem db (Query.storage a i) kept agrees =
      ground (arith, read_value_lem db.proofs db.inner a i kept agrees)
  ask_lem db (Query.block_hash n) kept agrees = ground arith
  ask_lem db (Query.logs f) kept agrees = ground arith

-- A query leaves the loaded proofs as they are.
pub ask-proofs :
    {D : Type 0} (ops : Database D) (db : ProofDb D) (q : Query) {a : Answer} {db' : ProofDb D}
    → ask (proof_db ops) db q ≡ ok (a, db')
    → db'.proofs ≡ db.proofs
unfolding ask proof_db basic code_by_hash storage block_hash logs
ask-proofs ops db (Query.basic a) e = ground arith
ask-proofs ops db (Query.code_by_hash h) e = ground arith
ask-proofs ops db (Query.storage a i) e = ground arith
ask-proofs ops db (Query.block_hash n) e = ground arith
ask-proofs ops db (Query.logs f) e = ground arith
