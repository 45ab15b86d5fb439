-- ===== src/Contract/EndToEnd.antt =====
-- crates/steel/src/contract.rs: a call on the host, and the input that is made after it.
use steel.Prelude.{
  Bytes, Bool, false, Option, none, refl, inl, inr, ◌⊎◌, All, Bool-cases, ℕ, ◌≤◌, ◌≡◌, sym, ap, ◌∙◌,
  subst, true, some,
}
use steel.Prelude.Maps.{contains_number}
use steel.Outcome.{ok, >>=-eq-ok, ok-injective}
use steel.Header.{EvmBlockHeader, EvmSpecId, seal_slow}
use steel.Platform.{Platform}
use steel.Commitment.{Commitment}
use steel.Config.Spec.{ChainSpec}
use steel.State.{StateDb}
use steel.Env.{EvmEnv}
use steel.Block.{Receipts, commit}
use steel.Input
use steel.Input.{EvmInput}
use steel.Rpc.{Network, Provider, context}
use steel.Host.Provider.{ProviderDb, provider_db}
use steel.Host.Proof.{proof_db}
use steel.Host.Recorded.{Recorded, ask_all-Recorded}
use steel.Host.Ancestry.{Chain}
use steel.Host.Input.{into_block_input}
use steel.Host.Env.{HostEvmEnv, spawn_with_db, commitment}
use steel.Host.Builder.{EvmEnvBuilder, Nothing, build}
use steel.Host.Accepted.{ServesReceipts, context-eq-ok}
use steel.Host.EndToEnd.{build-into_env}
use steel.Contract
use steel.Contract.{
  EvmFactory, SolCall, CallBuilder, CallResult, value, failed, no_return, ExecutionResult, success,
  revert, halt, decode_returns, settle, drive,
}
use steel.Contract.Preflight.{in_context, call}
use steel.Contract.Runs.{asked, drive-ask_all}

in_context-eq-ok :
    {A Halt : Type 0} (r : CallResult A Halt) {a : A} → in_context r ≡ ok a → r ≡ value a
unfolding in_context
in_context-eq-ok (value b) e = ap value (ok-injective e)
in_context-eq-ok (failed x) e = cc

-- A result of the EVM that yields a value: a success whose output decodes to it, and that is no mere
-- stop unless the function returns nothing.
abbrev pub Yields : {A Halt : Type 0} → SolCall A → ExecutionResult Halt → A → Type 0
Yields sol result a =
    (stop : Bool) × (output : Bytes) × (result ≡ success stop output)
    × ((stop ≡ false) ⊎ (sol.returns_nothing ≡ true))
    × (sol.abi_decode_returns output ≡ some a)

decode_returns-eq-value :
    {A Halt : Type 0} (found : Option A) {a : A}
    → decode_returns {Halt = Halt} found ≡ value a
    → found ≡ some a
unfolding decode_returns
decode_returns-eq-value none e = cc
decode_returns-eq-value (some b) e = cc

no_return-value :
    {A Halt : Type 0} {a : A} → ¬ (◌≡◌ {A = CallResult A Halt} (failed no_return) (value a))
no_return-value h = cc

settle-Yields :
    {A Halt : Type 0} (sol : SolCall A) (result : ExecutionResult Halt) (a : A)
    → settle sol result ≡ value a
    → Yields sol result a
unfolding settle
settle-Yields sol (revert output) a e = cc
settle-Yields sol (halt reason) a e = cc
settle-Yields {Halt = Halt} sol (success false output) a e = (
  false,
  output,
  refl,
  inl refl,
  decode_returns-eq-value {Halt = Halt} _
      (elim (Bool-cases sol.returns_nothing) [ inl b ↦ rw b at e | inr b ↦ rw b at e ]),
)
settle-Yields sol (success true output) a e = elim (Bool-cases sol.returns_nothing) [
  | inl nothing ↦ (true, output, refl, inr nothing, decode_returns-eq-value _ (rw nothing at e))
  | inr something ↦ absurd (no_return-value (rw something at e))
]

module _ {HR RR H R S Tx Halt A : Type 0} (p : Platform) (net : Network HR RR H R)
    (ops : EvmBlockHeader H) (evm : EvmFactory Tx S H Halt) where
  -- A call that returns is a run of the EVM on the database of the environment, and changes no more.
  pub call-drive :
      {C : Type 0} (env env' : HostEvmEnv (ProviderDb HR RR) S H C) (self : CallBuilder Tx A)
      (a : A)
      → call p net evm env self ≡ ok (a, env')
      → (result : ExecutionResult Halt) × (drive
            (proof_db (provider_db p.codec net))
            env.db
            (evm.transact env.chain_id env.spec_id env.header.inner self.tx)
          ≡ ok (result, env'.db))
        × (settle self.sol result ≡ value a)
        × (record env { db = env'.db } ≡ env')
  unfolding call spawn_with_db Contract.call
  call-drive env env' self a e =
      let run = evm.transact env.chain_id env.spec_id env.header.inner self.tx in
      let ops' = proof_db (provider_db p.codec net) in
      let ((result, after), q, e1) =
        >>=-eq-ok
          (context (spawn_with_db env (λ db. Contract.call ops' db self.sol run)) "call failed") _
          e in
      let (a', q2, e2) = >>=-eq-ok (in_context result) _ e1 in
      let spawned =
        context-eq-ok (spawn_with_db env (λ db. Contract.call ops' db self.sol run)) _ q in
      let ((result', db), called, e3) =
        >>=-eq-ok (Contract.call ops' env.db self.sol run) _ spawned in
      let ((executed, db'), driven, e4) = >>=-eq-ok (drive ops' env.db run) _ called in
      let same_db : db' ≡ db = ap (λ t. t.1) (ok-injective e4) in
      let same : record env { db = db } ≡ env' =
        ap (λ t. t.1) (ok-injective e3) ∙ ap (λ t. t.1) (ok-injective e2) in
      let env'_db : db' ≡ env'.db = same_db ∙ ap (λ x. x.db) same in
      (
        executed,
        driven ∙ ap (λ d. ok (executed, d)) env'_db,
        ap (λ t. t.0) (ok-injective e4)
            ∙ ap (λ t. t.0) (ok-injective e3)
            ∙ in_context-eq-ok result q2
            ∙ ap (λ t. value t.0) (ok-injective e2),
        ap (λ d. record env { db = d }) (sym (ap (λ x. x.db) same)) ∙ same,
      )

  -- What a call that returned has done: the EVM ran its transaction, on the chain, the fork and the
  -- header of the environment, with a result that yields the value; all that the run asked for is
  -- recorded in the environment after it, which is otherwise the one before.
  pub record IsCalled {C : Type 0} (env env' : HostEvmEnv (ProviderDb HR RR) S H C)
      (self : CallBuilder Tx A) (a : A) : Type 0 where
    pub result : ExecutionResult Halt
    pub ran :
        drive
          (proof_db (provider_db p.codec net))
          env.db
          (evm.transact env.chain_id env.spec_id env.header.inner self.tx)
        ≡ ok (result, env'.db)
    pub yields : Yields self.sol result a
    pub recorded : All (Recorded env'.db) (
        asked
          (proof_db (provider_db p.codec net))
          env.db
          (evm.transact env.chain_id env.spec_id env.header.inner self.tx))
    pub unchanged : record env { db = env'.db } ≡ env'

  call-IsCalled :
      {C : Type 0} (env env' : HostEvmEnv (ProviderDb HR RR) S H C) (self : CallBuilder Tx A)
      (a : A)
      → call p net evm env self ≡ ok (a, env')
      → IsCalled env env' self a
  call-IsCalled env env' self a e =
      let (result, driven, settled, same) = call-drive env env' self a e in
      let run = evm.transact env.chain_id env.spec_id env.header.inner self.tx in
      let ops' = proof_db (provider_db p.codec net) in
      let (answers, ran) = drive-ask_all ops' env.db run driven in
      record {
        result = result;
        ran = driven;
        yields = settle-Yields self.sol result a settled;
        recorded = ask_all-Recorded (provider_db p.codec net) env.db (asked ops' env.db run) ran;
        unchanged = same;
      }

  module _ (ids : EvmSpecId S) (fuel : ℕ) (rs : Receipts R) where
    -- A contract call on the host, from the builder to the guest, with a block commitment. Let the node
    -- serve a chain and the receipts of the block `n`, the builder build an environment of that block,
    -- a call on it return, which asked for block hashes up to `n` only, and the host then make an
    -- input. Then the call was a run of the EVM whose result is a success that decodes to the value,
    -- and is no mere stop unless the function returns nothing; all that the run asked for is
    -- recorded, and nothing else has changed. The guest makes an environment of the input; its header
    -- and commitment are those of the host, and it knows the hash of each block asked for.
    pub call-into_env :
        (self : EvmEnvBuilder (Provider HR RR) (ChainSpec S) Nothing)
        (env env' : HostEvmEnv (ProviderDb HR RR) S H Nothing) (header_of : ℕ → H)
        (response : ℕ → HR) (n : ℕ) (builder : CallBuilder Tx A) (a : A) (input : EvmInput H R)
        → Chain ops net self.provider header_of response
        → build net ops p ids self ≡ ok env
        → env.header ≡ seal_slow ops (header_of n)
        → call p net evm env builder ≡ ok (a, env')
        → ((k : ℕ) → contains_number k env'.db.block_hash_numbers ≡ true → k ≤ n)
        → ServesReceipts p fuel net ops ids rs env'.db (header_of n)
        → into_block_input p fuel net ops env' ≡ ok input
        → IsCalled env env' builder a
          × (guest : EvmEnv StateDb S H Commitment) × (Input.into_env p ops ids rs input
                self.chain_spec
              ≡ ok guest)
          × (guest.header ≡ env.header)
          × (commitment (λ unit header id. ok (commit ops header id)) env ≡ ok guest.commit)
          × ((k : ℕ)
              → contains_number k env'.db.block_hash_numbers ≡ true
              → guest.db.block_hashes k ≡ some (ops.hash_slow (header_of k)))
    call-into_env self env env' header_of response n builder a input chain built header called early
          serves made =
        let (result, driven, _, same) = call-drive env env' builder a called in
        let run = evm.transact env.chain_id env.spec_id env.header.inner builder.tx in
        let (answers, ran) = drive-ask_all (proof_db (provider_db p.codec net)) env.db run driven in
        let (guest, accepted, header_eq, commitment_eq, known) =
          build-into_env p net ops ids fuel rs self env header_of response n
            (asked (proof_db (provider_db p.codec net)) env.db run) answers env'.db input chain
            built header ran early serves
            (subst (λ x. into_block_input p fuel net ops x ≡ ok input) (sym same) made) in
        (call-IsCalled env env' builder a called, guest, accepted, header_eq, commitment_eq, known)
