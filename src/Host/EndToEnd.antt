-- ===== src/Host/EndToEnd.antt =====
-- crates/steel/src/host: a run on the host from the builder to the input of the guest.
use steel.Prelude.{ℕ, ◌≤◌, ◌≡◌, sym, ap, ◌∙◌, subst, B256, true, Option, none, some, List, bytes_eq}
use steel.Prelude.Maps.{contains_number}
use steel.Outcome.{Outcome, ok, message, ◌>>=◌, >>=-eq-ok, guard->>, ok-injective}
use steel.Header.{EvmBlockHeader, EvmSpecId, Sealed, seal_slow}
use steel.Platform.{Platform}
use steel.Commitment.{Commitment}
use steel.Config.Spec.{ChainSpec, active_fork}
use steel.Config.Digest.{digest}
use steel.State.{StateDb, or_default}
use steel.Env
use steel.Env.{EvmEnv}
use steel.Block.{Receipts, commit}
use steel.Input
use steel.Input.{EvmInput}
use steel.Rpc.{Network, Provider, context, or_err}
use steel.Host.Database.{Query, Answer, ask_all}
use steel.Host.Provider.{ProviderDb, provider_db, new as new_db}
use steel.Host.Proof
use steel.Host.Proof.{ProofDb, StorageProof, loaded, proof_db}
use steel.Host.Node.{ask_all-SameNode}
use steel.Host.Ancestry.{Chain}
use steel.Host.BlockId.{BlockId, into_rpc_type}
use steel.Host.Input.{from_proof_db, into_block_input}
use steel.Host.Env.{HostEvmEnv, commitment}
use steel.Host.Builder.{EvmEnvBuilder, Nothing, get_header, create_host_env, build}
use steel.Host.Accepted.{ServesReceipts, IsMade, IsMade-Accepts, from_proof_db-IsMade}

module _ {HR RR H R S : Type 0} (p : Platform) (net : Network HR RR H R) (ops : EvmBlockHeader H)
    (ids : EvmSpecId S) where
  -- the environment of a header
  abbrev pub start :
      EvmEnvBuilder (Provider HR RR) (ChainSpec S) Nothing
      → H
      → B256
      → S
      → HostEvmEnv (ProviderDb HR RR) S H Nothing
  start self h id spec_id =
      Env.new (Proof.new (new_db self.provider self.chunk_size (ops.hash_slow h)))
        self.chain_spec.chain_id spec_id (seal_slow ops h) (record { inner = tt; config_id = id })

  -- The header is sealed by its own hash.
  pub get_header-IsSealed :
      {T C : Type 0} (self : EvmEnvBuilder (Provider HR RR) T C) (id : Option BlockId)
      (header : Sealed H)
      → get_header net ops self id ≡ ok header
      → (h : H) × (seal_slow ops h ≡ header)
  unfolding get_header
  get_header-IsSealed self id header made =
      let (rpc_id, _, h1) =
        >>=-eq-ok (into_rpc_type self.provider (or_default self.block id)) _ made in
      let (response, _, h2) =
        >>=-eq-ok (context (self.provider.get_block rpc_id) "eth_getBlock failed") _ h1 in
      let (rpc_header, _, h3) = >>=-eq-ok (or_err response "block not found") _ h2 in
      let (h, _, h4) = >>=-eq-ok (context (net.try_header rpc_header) "header invalid") _ h3 in
      let (_, h5) =
        guard->> (bytes_eq (ops.hash_slow h) (net.hash rpc_header))
          (message "computed block hash does not match the hash returned by the API") _ h4 in
      (h, ok-injective h5)

  -- what `build` does with the header
  abbrev finish :
      EvmEnvBuilder (Provider HR RR) (ChainSpec S) Nothing
      → Sealed H
      → Outcome (HostEvmEnv (ProviderDb HR RR) S H Nothing)
  finish self header = digest p.codec ids self.chain_spec >>= λ id.
      create_host_env net ops self.provider self.chunk_size self.chain_spec header
        (record { inner = tt; config_id = id })

  -- an environment that was built, by its header
  abbrev pub IsBuilt :
      EvmEnvBuilder (Provider HR RR) (ChainSpec S) Nothing
      → HostEvmEnv (ProviderDb HR RR) S H Nothing
      → H
      → Type 0
  IsBuilt self env h =
      (id : B256) × (spec_id : S) × (digest p.codec ids self.chain_spec ≡ ok id)
      × (active_fork self.chain_spec (ops.number h) (ops.timestamp h) ≡ ok spec_id)
      × (start self h id spec_id ≡ env)

  finish-IsBuilt :
      (self : EvmEnvBuilder (Provider HR RR) (ChainSpec S) Nothing) (h : H)
      {env : HostEvmEnv (ProviderDb HR RR) S H Nothing}
      → finish self (seal_slow ops h) ≡ ok env
      → IsBuilt self env h
  unfolding create_host_env
  finish-IsBuilt self h e =
      let (id, digested, e2) = >>=-eq-ok (digest p.codec ids self.chain_spec) _ e in
      let (_, _, e3) = >>=-eq-ok (context self.provider.get_chain_id "eth_chainId failed") _ e2 in
      let (spec_id, active, e4) =
        >>=-eq-ok (active_fork self.chain_spec (ops.number h) (ops.timestamp h)) _ e3 in
      (id, spec_id, digested, active, ok-injective e4)

  pub build-IsBuilt :
      (self : EvmEnvBuilder (Provider HR RR) (ChainSpec S) Nothing)
      {env : HostEvmEnv (ProviderDb HR RR) S H Nothing}
      → build net ops p ids self ≡ ok env
      → (h : H) × IsBuilt self env h
  unfolding build
  build-IsBuilt self {env} e =
      let (header, made, e1) = >>=-eq-ok (get_header net ops self none) _ e in
      let (h, same) = get_header-IsSealed self none header made in
      (h, finish-IsBuilt self h (subst (λ x. finish self x ≡ ok env) (sym same) e1))

  module _ (fuel : ℕ) (rs : Receipts R) where
    -- A run from the builder to the guest, with a block commitment. Let the node serve a chain and the
    -- receipts of the block `n`, the builder build an environment of that block, and a run make its
    -- queries, of block hashes up to `n` only. If the host then makes an input, the guest makes an
    -- environment of it; the header and the commitment are those of the host, and the guest knows the
    -- hash of each block that the run asked for.
    pub build-into_env :
        (self : EvmEnvBuilder (Provider HR RR) (ChainSpec S) Nothing)
        (env : HostEvmEnv (ProviderDb HR RR) S H Nothing) (header_of : ℕ → H) (response : ℕ → HR)
        (n : ℕ) (queries : List Query) (answers : List Answer) (db : ProofDb (ProviderDb HR RR))
        (input : EvmInput H R)
        → Chain ops net self.provider header_of response
        → build net ops p ids self ≡ ok env
        → env.header ≡ seal_slow ops (header_of n)
        → ask_all (proof_db (provider_db p.codec net)) env.db queries ≡ ok (answers, db)
        → ((k : ℕ) → contains_number k db.block_hash_numbers ≡ true → k ≤ n)
        → ServesReceipts p fuel net ops ids rs db (header_of n)
        → into_block_input p fuel net ops (record env { db = db }) ≡ ok input
        → (guest : EvmEnv StateDb S H Commitment) × (Input.into_env p ops ids rs input
              self.chain_spec
            ≡ ok guest)
          × (guest.header ≡ env.header)
          × (commitment (λ unit header id. ok (commit ops header id)) env ≡ ok guest.commit)
          × ((k : ℕ)
              → contains_number k db.block_hash_numbers ≡ true
              → guest.db.block_hashes k ≡ some (ops.hash_slow (header_of k)))
    unfolding into_block_input commitment Env.new Proof.new new_db Input.into_env
    build-into_env self env header_of response n queries answers db input chain built header ran
          early serves made =
        let (h, (id, spec_id, digested, active, same)) = build-IsBuilt self built in
        let block : h ≡ header_of n = ap (λ x. x.header.inner) same ∙ ap (λ x. x.inner) header in
        let active' : active_fork self.chain_spec n (ops.timestamp (header_of n)) ≡ ok spec_id =
          rw (block, chain.numbered n) at active in
        let node : db.inner.provider ≡ self.provider =
          (ask_all-SameNode p.codec net env.db queries ran).0
          ∙ sym (ap (λ x. x.db.inner.provider) same) in
        let (block_input, q, r) = >>=-eq-ok (from_proof_db p fuel net ops db env.header) _ made in
        let parts = from_proof_db-IsMade p fuel net ops ids rs db env.header block_input q in
        let (guest, e, same_header, same_commit, known) =
          IsMade-Accepts p fuel net ops ids rs header_of response n db block_input self.chain_spec
            id spec_id (rw node chain) early serves digested active'
            (subst (λ x. IsMade p fuel net ops ids rs db x block_input) header parts) in
        (
          guest,
          subst (λ i. Input.into_env p ops ids rs i self.chain_spec ≡ ok guest) (ok-injective r) e,
          same_header ∙ sym header,
          ap ok (
              ap (λ x. commit ops x env.commit.config_id) header
              ∙ ap (λ i. commit ops (seal_slow ops (header_of n)) i)
                  (sym (ap (λ x. x.commit.config_id) same))
              ∙ sym same_commit),
          known,
        )
