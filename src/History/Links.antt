-- ===== src/History/Links.antt =====
-- A history that the host builds is accepted by the guest.
use steel.Prelude.{
  ℕ, zero, suc, ◌+◌, ◌*◌, ◌%◌, ◌^◌, ◌<◌, ◌≤◌, ◌≡◌, inl, inr, sym, ap, subst, ◌∙◌, B256, Address,
  true, List, [], ◌∷◌, ◌++◌, ltb, bytes_eq, bytes_eq→eq, eq→bytes_eq, bytes_eq_refl, arith,
  Bool-cases,
}
use steel.Outcome.{Outcome, ok, guard->>, >>=-eq-ok, ok-injective, ◌>>=◌}
use steel.Header.{EvmBlockHeader, Sealed, seal_slow}
use steel.Platform.{Platform}
use steel.Commitment
use steel.Commitment.{Commitment, as_u16, block}
use steel.History.Contract.{SingleContractState, AccountProof, from_proof, root}
use steel.History.HistoryStorage
use steel.History.Eip2935.{StateCommit, HistoryCommit, in_window, step, walk, commit}
use steel.History.Host.{Provider, step_by, schedule, preflight, build, from_headers}

-- each number is after the one before it by place most the window
abbrev pub Gaps : ℕ → List ℕ → Type 0
Gaps a [] = Unit
Gaps a (b ∷ ns) = (in_window a b ≡ true) × Gaps b ns

in_window-intro : (a b : ℕ) → a < b → b ≤ a + 8191 → in_window a b ≡ true
unfolding in_window
in_window-intro a b h k = ground arith

step_by-Gaps :
    (fuel a end : ℕ)
    → a < end
    → end ≤ a + 8191 * suc fuel
    → Gaps a (step_by fuel (a + 8191) end ++ (end ∷ []))
unfolding step_by
step_by-Gaps zero a end h k = (in_window-intro a end h (omega arith), tt)
step_by-Gaps (suc fuel) a end h k = elim (Bool-cases (ltb (a + 8191) end)) [
  | inl more ↦ rw more (
      (
        in_window-intro a (a + 8191) (omega arith) (omega arith),
        step_by-Gaps fuel (a + 8191) end (ground (arith, more)) (omega arith),
      ))
  | inr done ↦ rw done ((in_window-intro a end h (ground (arith, done)), tt))
]

-- The numbers of a history lead from the first block to the last in steps of the window.
schedule-Gaps : (a b : ℕ) → a < b → a + 8191 < 2 ^ 64 → Gaps a (schedule a b)
unfolding schedule
schedule-Gaps a b h k =
    let small : (a + 8191) % 2 ^ 64 ≡ a + 8191 = omega arith in
    rw small (step_by-Gaps b a b h (omega arith))

module _ (p : Platform) {H : Type 0} (ops : EvmBlockHeader H) where
  step-intro :
      (s : StateCommit H) (header : Sealed H)
      → in_window (ops.number header.inner) (ops.number s.header) ≡ true
      → root p s.state ≡ ops.state_root s.header
      → (HistoryStorage.new p s.state >>= λ contract.
          HistoryStorage.get_unchecked p contract (ops.number header.inner))
        ≡ ok header.seal
      → step p ops s header ≡ ok (seal_slow ops s.header)
  unfolding step
  step-intro s header window state_root call =
      rw (window, eq→bytes_eq _ _ state_root, call, bytes_eq_refl header.seal)

  module _ (provider : Provider H) (fuel : ℕ) where
    -- what the host's read of a block hash has made
    abbrev Preflighted : B256 → ℕ → B256 → SingleContractState → Type 0
    Preflighted place number hash state =
        (code_hash : B256) × (proof : AccountProof) × ◌≡◌ {A = Outcome (B256 × AccountProof)}
          (provider.get_proof place HistoryStorage.address
            (number % HistoryStorage.history_serve_window ∷ []))
          (ok (code_hash, proof))
        × (from_proof p fuel HistoryStorage.address proof ≡ ok state)
        × ((HistoryStorage.new p state >>= λ contract.
              HistoryStorage.get_unchecked p contract number)
            ≡ ok hash)

    preflight_lem :
        (place : B256) (number : ℕ) (hash : B256) (state : SingleContractState)
        → preflight p ops provider fuel place number ≡ ok (hash, state)
        → Preflighted place number hash state
    unfolding preflight
    preflight_lem place number hash state e =
        let ((code_hash, proof), got, e1) =
          >>=-eq-ok (provider.get_proof place HistoryStorage.address _) _ e in
        let (_, e2) = guard->> (bytes_eq code_hash HistoryStorage.code_hash) _ _ e1 in
        let (s, parsed, e3) = >>=-eq-ok (from_proof p fuel HistoryStorage.address proof) _ e2 in
        let (h, called, pair) =
          >>=-eq-ok
            (HistoryStorage.new p s >>= λ contract. HistoryStorage.get_unchecked p contract number)
            _ e3 in
        let hash_eq = ap (λ x. x.0) (ok-injective pair) in
        let state_eq = ap (λ x. x.1) (ok-injective pair) in
        (
          code_hash,
          proof,
          got,
          parsed ∙ ap ok state_eq,
          subst
              (λ x.
                (HistoryStorage.new p x >>= λ contract.
                HistoryStorage.get_unchecked p contract number)
                ≡ ok hash)
              state_eq (called ∙ ap ok hash_eq),
        )

    module _
        (asked : (number : ℕ) (header : H)
          → provider.get_header number ≡ ok header
          → ops.number header ≡ number)
        (proven : (header : H) (address : Address) (slots : List ℕ) (code_hash : B256)
            (proof : AccountProof) (state : SingleContractState)
          → provider.get_proof (ops.hash_slow header) address slots ≡ ok (code_hash, proof)
          → from_proof p fuel address proof ≡ ok state
          → root p state ≡ ops.state_root header) where
      build-walk :
          (ns : List ℕ) (current last : Sealed H) (commits : List (StateCommit H))
          → Gaps (ops.number current.inner) ns
          → build p ops provider fuel ns current ≡ ok (commits, last)
          → walk p ops commits current ≡ ok last
      unfolding build walk
      build-walk [] current last commits gaps e =
          let none_eq = ap (λ x. x.0) (ok-injective e) in
          let last_eq = ap (λ x. x.1) (ok-injective e) in
          subst (λ c. walk p ops c current ≡ ok last) none_eq (ap ok last_eq)
      build-walk (n ∷ ns) current last commits gaps e =
          let (header, got, e1) = >>=-eq-ok (provider.get_header n) _ e in
          let ((hash, state), read, e2) =
            >>=-eq-ok
              (preflight p ops provider fuel (ops.hash_slow header) (ops.number current.inner)) _
              e1 in
          let (same, e3) = guard->> (bytes_eq current.seal hash) _ _ e2 in
          let ((rest, final), built, pair) =
            >>=-eq-ok (build p ops provider fuel ns (seal_slow ops header)) _ e3 in
          let number_eq = asked n header got in
          let (code_hash, proof, sent, parsed, called) =
            preflight_lem (ops.hash_slow header) (ops.number current.inner) hash state read in
          let link : StateCommit H = record { state = state; header = header } in
          let stepped =
            step-intro link current (rw number_eq gaps.0)
              (proven header HistoryStorage.address _ code_hash proof state sent parsed)
              (called ∙ ap ok (sym (bytes_eq→eq _ _ same))) in
          let walked =
            build-walk ns (seal_slow ops header) final rest
              (subst (λ k. Gaps k ns) (sym number_eq) gaps.1) built in
          let last_eq = ap (λ x. x.1) (ok-injective pair) in
          subst (λ c. walk p ops c current ≡ ok last) (ap (λ x. x.0) (ok-injective pair))
            (rw stepped (walked ∙ ap ok last_eq))

      -- A history that the host builds, from a provider that sends the headers asked for and proofs of
      -- the state of the block asked for, is accepted: the commitment made of it has the hash of the
      -- commitment block as its digest, and the configuration given.
      pub from_headers-commit :
          (execution_header commitment_header : Sealed H) (self : HistoryCommit H)
          (config_id : B256)
          → ops.number execution_header.inner + 8191 < 2 ^ 64
          → from_headers p ops provider fuel execution_header commitment_header ≡ ok self
          → (number : ℕ) × (commit p ops self execution_header config_id
              ≡ ok (Commitment.new (as_u16 block) number commitment_header.seal config_id))
      unfolding from_headers commit
      from_headers-commit execution_header commitment_header self config_id small e =
          let (before, e1) =
            guard->> (ltb (ops.number execution_header.inner) (ops.number commitment_header.inner))
              _ _ e in
          let ((commits, last), built, e2) =
            >>=-eq-ok
              (build p ops provider fuel
                (schedule (ops.number execution_header.inner) (ops.number commitment_header.inner))
                execution_header)
              _ e1 in
          let (same, made) = guard->> (bytes_eq last.seal commitment_header.seal) _ _ e2 in
          let gaps =
            schedule-Gaps (ops.number execution_header.inner) (ops.number commitment_header.inner)
              (ground (arith, before)) small in
          let walked = build-walk _ execution_header last commits gaps built in
          let seal_eq = bytes_eq→eq _ _ same in
          (
            ops.number last.inner,
            subst
                (λ (c : HistoryCommit H).
                  commit p ops c execution_header config_id
                  ≡ ok (
                      Commitment.new (as_u16 block) (ops.number last.inner) commitment_header.seal
                        config_id))
                (ok-injective made)
                (rw walked (
                  ap (λ d. ok (Commitment.new (as_u16 block) (ops.number last.inner) d config_id))
                    seal_eq)),
          )
