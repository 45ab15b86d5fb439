-- ===== src/Host/Accepted.antt =====
-- crates/steel/src/host and crates/steel/src/block.rs: the input that the host makes,
-- in the guest.
use steel.Prelude.{
  ℕ, ◌≤◌, ◌≡◌, refl, sym, ap, ◌∙◌, subst, B256, Bool, true, false, Option, none, some, List, [],
  bytes_eq, bytes_eq→eq, bytes_eq_refl, if◌then◌else◌, zero, suc, ◌-◌,
}
use steel.Prelude.Maps.{contains_number}
use steel.Outcome.{Outcome, ok, err, message, ◌>>=◌, >>=-eq-ok, assert->>, guard->>, ok-injective}
use steel.Header.{EvmBlockHeader, EvmSpecId, Sealed, seal_slow}
use steel.Platform.{Platform, Log}
use steel.Mpt.Trie.{hash_slow, MerkleTrie, from_rlp_nodes, from_digest}
use steel.Commitment.{Commitment}
use steel.Config.Spec.{ChainSpec, active_fork}
use steel.Config.Digest.{digest}
use steel.State
use steel.State.{StateDb, insert_at}
use steel.Env
use steel.Env.{EvmEnv}
use steel.Block.{
  BlockInput, BlockHashes, Receipts, commit, link_ancestors, encodings, all_logs, check_receipts,
  into_env,
}
use steel.Rpc.{Network, context, or_err}
use steel.Host.Proven.{or_err-eq-ok}
use steel.Host.Provider.{ProviderDb}
use steel.Host.Proof.{ProofDb}
use steel.Host.Proof.Requests.{
  state_proof, ancestor_proof, receipt_proof, recorded_proof, fetch_all, state_nodes, storage_tries,
  is_empty, db_block, fetch_receipts, any_match,
}
use steel.Host.Ancestry.{Chain, below, ancestor_proof-link_ancestors}
use steel.Host.Input.{try_all, try_option, from_proof_db}

pub context-eq-ok : {A : Type 0} (m : Outcome A) (s : _) {a : A} → context m s ≡ ok a → m ≡ ok a
context-eq-ok (ok b) s e = e
context-eq-ok (err x) s e = cc
context-eq-ok (Outcome.panic x) s e = cc
context-eq-ok Outcome.out_of_fuel s e = cc

module _ {HR RR H R S : Type 0} (p : Platform) (fuel : ℕ) (net : Network HR RR H R)
    (ops : EvmBlockHeader H) (ids : EvmSpecId S) (rs : Receipts R) where
  -- The receipts of the block that the node serves have the root that the header tells.
  abbrev pub ServesReceipts : ProofDb (ProviderDb HR RR) → H → Type 0
  ServesReceipts db header =
      (responses : List RR) (receipts : List R)
      → db.inner.provider.get_block_receipts db.inner.block ≡ ok (some responses)
      → try_all net.try_receipt responses ≡ ok receipts
      → ops.receipts_root header ≡ p.ordered_trie_root (encodings rs receipts)

  -- The parts of an input that the host made.
  pub record IsMade (db : ProofDb (ProviderDb HR RR)) (header : Sealed H) (input : BlockInput H R)
      : Type 0 where
    pub same_header : input.header ≡ header.inner
    pub same_block : db.inner.block ≡ header.seal
    pub state_root : ops.state_root header.inner ≡ hash_slow p.codec input.state_trie
    pub after : ProofDb (ProviderDb HR RR)
    pub proven :
        state_proof net p.codec fuel db ≡ ok ((input.state_trie, input.storage_tries), after)
    pub responses : List HR
    pub fetched : ancestor_proof after (ops.number header.inner) ≡ ok responses
    pub converted : try_all net.try_header responses ≡ ok input.ancestors
    pub receipts : Option (List RR)
    pub served : receipt_proof net p after ≡ ok receipts
    pub decoded : try_option net.try_receipt receipts ≡ ok input.receipts

  pub from_proof_db-IsMade :
      (db : ProofDb (ProviderDb HR RR)) (header : Sealed H) (input : BlockInput H R)
      → from_proof_db p fuel net ops db header ≡ ok input
      → IsMade db header input
  unfolding from_proof_db
  from_proof_db-IsMade db header input e =
      let (same, e1) = assert->> (bytes_eq db.inner.block header.seal) "DB block mismatch" _ e in
      let (((trie, tries), after), proven, e2) = >>=-eq-ok (state_proof net p.codec fuel db) _ e1 in
      let (root, e3) =
        guard->> (bytes_eq (ops.state_root header.inner) (hash_slow p.codec trie))
          (message "accountProof root does not match header's stateRoot") _ e2 in
      let (responses, fetched, e4) =
        >>=-eq-ok (ancestor_proof after (ops.number header.inner)) _ e3 in
      let (ancestors, converted, e5) =
        >>=-eq-ok (context (try_all net.try_header responses) "invalid header") _ e4 in
      let (rpc_receipts, served, e6) = >>=-eq-ok (receipt_proof net p after) _ e5 in
      let (receipts, decoded, e7) =
        >>=-eq-ok (context (try_option net.try_receipt rpc_receipts) "invalid receipt") _ e6 in
      subst (λ i. IsMade db header i) (ok-injective e7)
        (record {
          same_header = refl;
          same_block = bytes_eq→eq _ _ same;
          state_root = bytes_eq→eq _ _ root;
          after = after;
          proven = proven;
          responses = responses;
          fetched = fetched;
          converted = context-eq-ok (try_all net.try_header responses) _ converted;
          receipts = rpc_receipts;
          served = served;
          decoded = context-eq-ok (try_option net.try_receipt rpc_receipts) _ decoded;
        })

  -- The proof of what was recorded changes nothing but the proofs.
  abbrev pub Keeps : ProofDb (ProviderDb HR RR) → ProofDb (ProviderDb HR RR) → Type 0
  Keeps db after =
      (after.inner ≡ db.inner)
      × (after.block_hash_numbers ≡ db.block_hash_numbers)
      × (after.log_filters ≡ db.log_filters)

  recorded_proof-Keeps :
      (db after : ProofDb (ProviderDb HR RR)) {tries : MerkleTrie × List MerkleTrie}
      → recorded_proof net p.codec fuel db ≡ ok (tries, after)
      → Keeps db after
  unfolding recorded_proof
  recorded_proof-Keeps db after e =
      let (proofs, p1, q1) = >>=-eq-ok (fetch_all p.codec db.inner db.proofs db.accounts) _ e in
      let (trie, p2, q2) =
        >>=-eq-ok
          (context (from_rlp_nodes p.codec fuel (state_nodes proofs db.accounts))
            "accountProof invalid")
          _ q1 in
      let (made, p3, q3) = >>=-eq-ok (storage_tries p.codec fuel proofs [] db.accounts) _ q2 in
      subst (λ r. Keeps db r.1) (ok-injective q3) (refl, refl, refl)

  pub state_proof-Keeps :
      (db after : ProofDb (ProviderDb HR RR)) {tries : MerkleTrie × List MerkleTrie}
      → state_proof net p.codec fuel db ≡ ok (tries, after)
      → Keeps db after
  unfolding state_proof
  state_proof-Keeps db after {tries} e =
      let (_, q) = guard->> _ (message "no accounts accessed: use Contract::preflight") _ e in
      at (is_empty db.accounts) q
    where
      at :
          (b : Bool)
          → (if b
              then (do
                header ← db_block net db.inner
                ok ((from_digest (net.state_root header), []), db))
              else recorded_proof net p.codec fuel db)
            ≡ ok (tries, after)
          → Keeps db after
      at true r =
          let (header, _, q) = >>=-eq-ok (db_block net db.inner) _ r in
          subst (λ x. Keeps db x.1) (ok-injective q) (refl, refl, refl)
      at false r = recorded_proof-Keeps db after r

  receipt_proof-some :
      (db : ProofDb (ProviderDb HR RR)) (responses : List RR)
      → receipt_proof net p db ≡ ok (some responses)
      → db.inner.provider.get_block_receipts db.inner.block ≡ ok (some responses)
  unfolding receipt_proof fetch_receipts
  receipt_proof-some db responses e = at (is_empty db.log_filters) e
    where
      served :
          (b : Bool)
          → (if b then fetch_receipts db.inner else ok none) ≡ ok (some responses)
          → db.inner.provider.get_block_receipts db.inner.block ≡ ok (some responses)
      served true e =
          let (found, q, r) =
            >>=-eq-ok
              (context (db.inner.provider.get_block_receipts db.inner.block)
                "eth_getBlockReceipts failed")
              _ e in
          let (list, q', r') = >>=-eq-ok (or_err found "block not found") _ r in
          context-eq-ok (db.inner.provider.get_block_receipts db.inner.block) _ q
          ∙ ap ok (or_err-eq-ok found _ q')
          ∙ r'
      served false e = cc

      at :
          (b : Bool)
          → (if b then ok none else (do
            header ← db_block net db.inner
            if any_match p (net.logs_bloom header) db.log_filters
                then fetch_receipts db.inner
                else ok none))
            ≡ ok (some responses)
          → db.inner.provider.get_block_receipts db.inner.block ≡ ok (some responses)
      at true e = cc
      at false e =
          let (header, _, q) = >>=-eq-ok (db_block net db.inner) _ e in
          served (any_match p (net.logs_bloom header) db.log_filters) q

  try_all-below :
      (header : ℕ → H) (response : ℕ → HR)
      → ((n : ℕ) → net.try_header (response n) ≡ ok (header n))
      → (count n : ℕ) → try_all net.try_header (below response count n) ≡ ok (below header count n)
  unfolding try_all below
  try_all-below header response converted zero n = refl
  try_all-below header response converted (suc count) n =
      rw (converted (n - 1), try_all-below header response converted count (n - 1)) refl

  check_receipts_lem :
      (db : ProofDb (ProviderDb HR RR)) (header : Sealed H) (responses : Option (List RR))
      (receipts : Option (List R))
      → ServesReceipts db header.inner
      → receipt_proof net p db ≡ ok responses
      → try_option net.try_receipt responses ≡ ok receipts
      → (logs : _) × (check_receipts p ops ids rs header receipts ≡ ok logs)
  unfolding check_receipts try_option
  check_receipts_lem db header none none serves e d = (none, refl)
  check_receipts_lem db header none (some receipts) serves e d = cc
  check_receipts_lem db header (some responses) receipts serves e d =
      let (list, q, r) = >>=-eq-ok (try_all net.try_receipt responses) _ d in
      let root = serves responses list (receipt_proof-some db responses e) q in
      rw (sym (ok-injective r)) (
        some (all_logs rs list),
        rw (root, bytes_eq_refl (p.ordered_trie_root (encodings rs list))) refl,
      )

  -- the environment that the guest makes
  abbrev made_env :
      BlockInput H R
      → ChainSpec S
      → BlockHashes
      → Option (List Log)
      → B256
      → S
      → EvmEnv StateDb S H Commitment
  made_env input spec hashes logs config_id spec_id =
      Env.new (State.new p input.state_trie input.storage_tries input.contracts hashes logs)
        spec.chain_id spec_id (seal_slow ops input.header)
        (commit ops (seal_slow ops input.header) config_id)

  into_env-eq-ok :
      (input : BlockInput H R) (spec : ChainSpec S) (hashes : BlockHashes)
      (logs : Option (List Log)) (config_id : B256) (spec_id : S)
      → ops.state_root input.header ≡ hash_slow p.codec input.state_trie
      → link_ancestors ops input.header input.ancestors
          (insert_at (λ k. none) (ops.number input.header) (ops.hash_slow input.header))
        ≡ ok hashes
      → check_receipts p ops ids rs (seal_slow ops input.header) input.receipts ≡ ok logs
      → digest p.codec ids spec ≡ ok config_id
      → active_fork spec (ops.number input.header) (ops.timestamp input.header) ≡ ok spec_id
      → into_env p ops ids rs input spec ≡ ok (made_env input spec hashes logs config_id spec_id)
  unfolding into_env commit Env.from_chain_spec
  into_env-eq-ok input spec hashes logs config_id spec_id root linked checked digested active =
      rw
        (
          root,
          bytes_eq_refl (hash_slow p.codec input.state_trie),
          linked,
          checked,
          digested,
          active,
        )
        refl

  -- What the guest makes of the input of the block `n`: an environment with the header and the
  -- commitment of the host, that knows the hash of each block that the run asked for.
  abbrev pub Accepts :
      (ℕ → H) → ℕ → ProofDb (ProviderDb HR RR) → BlockInput H R → ChainSpec S → B256 → Type 0
  Accepts header_of n db input spec config_id =
      (env : EvmEnv StateDb S H Commitment) × (into_env p ops ids rs input spec ≡ ok env)
      × (env.header ≡ seal_slow ops (header_of n))
      × (env.commit ≡ commit ops (seal_slow ops (header_of n)) config_id)
      × ((k : ℕ)
          → contains_number k db.block_hash_numbers ≡ true
          → env.db.block_hashes k ≡ some (ops.hash_slow (header_of k)))

  pub IsMade-Accepts :
      (header_of : ℕ → H) (response : ℕ → HR) (n : ℕ) (db : ProofDb (ProviderDb HR RR))
      (input : BlockInput H R) (spec : ChainSpec S) (config_id : B256) (spec_id : S)
      → Chain ops net db.inner.provider header_of response
      → ((k : ℕ) → contains_number k db.block_hash_numbers ≡ true → k ≤ n)
      → ServesReceipts db (header_of n)
      → digest p.codec ids spec ≡ ok config_id
      → active_fork spec n (ops.timestamp (header_of n)) ≡ ok spec_id
      → IsMade db (seal_slow ops (header_of n)) input
      → Accepts header_of n db input spec config_id
  unfolding Env.new State.new
  IsMade-Accepts header_of response n db input spec config_id spec_id chain early serves digested
        active made =
      let (inner, numbers, filters) = state_proof-Keeps db made.after made.proven in
      let (count, hashes, _, fetched, linked, known) =
        ancestor_proof-link_ancestors ops net header_of response made.after n (rw inner chain)
          (λ k h. early k (rw numbers at h)) in
      let fetched' : ancestor_proof made.after n ≡ ok made.responses =
        rw (chain.numbered n) at made.fetched in
      let responses : made.responses ≡ below response count n =
        ok-injective (sym fetched' ∙ fetched) in
      let ancestors : input.ancestors ≡ below header_of count n = ok-injective (
        sym made.converted
        ∙ ap (try_all net.try_header) responses
        ∙ try_all-below header_of response chain.converted count n) in
      let (logs, checked) =
        check_receipts_lem made.after (seal_slow ops (header_of n)) made.receipts input.receipts
          (rw inner serves) made.served made.decoded in
      let number = chain.numbered n in
      let same = made.same_header in
      (
        made_env input spec hashes logs config_id spec_id,
        into_env-eq-ok input spec hashes logs config_id spec_id (rw same made.state_root)
            (rw (same, ancestors, number) linked) (rw same checked) digested
            (rw (same, number) active),
        rw same refl,
        rw same refl,
        λ k h. known k (rw numbers h),
      )
