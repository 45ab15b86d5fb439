-- ===== src/Contract/Replay.antt =====
-- crates/steel/src/contract.rs: calls in the guest by the answers of the host.
use steel.Prelude.{◌≡◌, refl, ap, ◌∙◌, List, ◌∷◌}
use steel.Outcome.{ok, ◌>>=◌, >>=-eq-ok}
use steel.Header.{EvmBlockHeader}
use steel.Platform.{Platform}
use steel.Commitment.{Commitment}
use steel.State.{StateDb, WrapStateDb, wrap}
use steel.Env.{EvmEnv}
use steel.Rpc.{Network}
use steel.Host.Database.{Database, Query, Answer, ask, ask_all}
use steel.Host.Provider.{ProviderDb, provider_db}
use steel.Host.Proof.{proof_db}
use steel.Host.Env.{HostEvmEnv}
use steel.Contract
use steel.Contract.{
  Run, done, fails, asks, EvmFactory, CallBuilder, CallResult, value, failed, drive, settle,
  guest_db, try_call, guest_call,
}
use steel.Contract.Preflight.{call}
use steel.Contract.EndToEnd.{call-drive}
use steel.Contract.Runs.{asked}

module _ {D E R : Type 0} (ops : Database D) (ops' : Database E) where
  -- one query, answered alike
  ask-replay :
      (d d1 : D) (e : E) (q : Query) (next : Answer → Run R) (a : Answer) (answers : List Answer)
      {d' : D} {e' : E}
      → ask ops d q ≡ ok (a, d1)
      → ask_all ops d (asked ops d (asks q next)) ≡ ok (answers, d')
      → ask_all ops' e (asked ops d (asks q next)) ≡ ok (answers, e')
      → (rest : List Answer) × (e1 : E) × (ask ops' e q ≡ ok (a, e1))
        × (ask_all ops d1 (asked ops d1 (next a)) ≡ ok (rest, d'))
        × (ask_all ops' e1 (asked ops d1 (next a)) ≡ ok (rest, e'))
  unfolding asked ask_all
  ask-replay d d1 e q next a answers {d'} {e'} p t u =
      let t' : (ask_all ops d1 (asked ops d1 (next a)) >>= λ (rest, x). ok (a ∷ rest, x))
          ≡ ok (answers, d') =
        rw p at t in
      let u' : (ask ops' e q >>= λ (a2, x).
      ask_all ops' x (asked ops d1 (next a)) >>= λ (rest, y). ok (a2 ∷ rest, y))
          ≡ ok (answers, e') =
        rw p at u in
      let ((rest, d2), p1, t1) = >>=-eq-ok (ask_all ops d1 (asked ops d1 (next a))) _ t' in
      let ((a2, e1), p2, u1) = >>=-eq-ok (ask ops' e q) _ u' in
      let ((rest', e2), p3, u2) = >>=-eq-ok (ask_all ops' e1 (asked ops d1 (next a))) _ u1 in
      let first : a2 ≡ a = cc in
      let others : rest' ≡ rest = cc in
      let last : d2 ≡ d' = cc in
      let last' : e2 ≡ e' = cc in
      (
        rest,
        e1,
        p2 ∙ ap (λ x. ok (x, e1)) first,
        p1 ∙ ap (λ x. ok (rest, x)) last,
        p3 ∙ ap (λ x. ok (x, e2)) others ∙ ap (λ x. ok (rest, x)) last',
      )

  -- The answers decide how a run goes on: a database that answers the queries of a run as another
  -- does ends it with the same result.
  drive-replay :
      (d : D) (e : E) (run : Run R) (answers : List Answer) {r : R} {d' : D} {e' : E}
      → drive ops d run ≡ ok (r, d')
      → ask_all ops d (asked ops d run) ≡ ok (answers, d')
      → ask_all ops' e (asked ops d run) ≡ ok (answers, e')
      → drive ops' e run ≡ ok (r, e')
  unfolding drive asked ask_all
  drive-replay d e (done r) answers h t u = cc
  drive-replay d e (fails x) answers h t u = cc
  drive-replay d e (asks q next) answers {r} {d'} {e'} h t u =
      let ((a, d1), p, h1) = >>=-eq-ok (ask ops d q) _ h in
      let (rest, e1, p', t', u') = ask-replay d d1 e q next a answers p t u in
      let ended = drive-replay d1 e1 (next a) rest h1 t' u' in rw p' ended

module _ {HR RR H R S Tx Halt A C : Type 0} (p : Platform) (net : Network HR RR H R)
    (ops : EvmBlockHeader H) (evm : EvmFactory Tx S H Halt) where
  -- Where a call on the host returned a value, and the guest has the chain, the fork and the header of
  -- the host, and its database gives the answers that the host's database gave to the queries of
  -- this call, the same call in the guest does not panic and returns the same value.
  pub call-guest_call :
      (env env' : HostEvmEnv (ProviderDb HR RR) S H C) (guest : EvmEnv StateDb S H Commitment)
      (self : CallBuilder Tx A) (a : A) (answers : List Answer) (wrapped : WrapStateDb H)
      → call p net evm env self ≡ ok (a, env')
      → guest.chain_id ≡ env.chain_id
      → guest.spec_id ≡ env.spec_id
      → guest.header ≡ env.header
      → ask_all (proof_db (provider_db p.codec net)) env.db (
          asked
            (proof_db (provider_db p.codec net))
            env.db
            (evm.transact env.chain_id env.spec_id env.header.inner self.tx))
        ≡ ok (answers, env'.db)
      → ask_all (guest_db p ops) (wrap guest.db guest.header) (
          asked
            (proof_db (provider_db p.codec net))
            env.db
            (evm.transact env.chain_id env.spec_id env.header.inner self.tx))
        ≡ ok (answers, wrapped)
      → guest_call p ops evm guest self ≡ ok a
  unfolding guest_call Contract.call
  call-guest_call env env' guest self a answers wrapped called chain_id spec_id header host
        replayed =
      let (result, driven, settled, _) = call-drive p net ops evm env env' self a called in
      let run = evm.transact env.chain_id env.spec_id env.header.inner self.tx in
      let ended =
        drive-replay (proof_db (provider_db p.codec net)) (guest_db p ops) env.db
          (wrap guest.db guest.header) run answers driven host replayed in
      let at_header : drive (guest_db p ops) (wrap guest.db env.header) run ≡ ok (result, wrapped) =
        rw header at ended in
      rw (chain_id, spec_id, header, at_header, settled) refl
