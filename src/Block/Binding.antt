-- ===== src/Block/Binding.antt =====
-- What an environment built from a block input has been checked to be.
use steel.Prelude.{
  ℕ, ◌≡◌, inl, inr, refl, sym, ap, subst, ◌∙◌, B256, Option, none, some, List, [], ◌∷◌, ◌==◌,
  bytes_eq, bytes_eq→eq, Bool-cases, arith,
}
use steel.Outcome.{ok, expect, assert->>, >>=-eq-ok, expect-eq-ok, ok-injective}
use steel.Header.{EvmBlockHeader, EvmSpecId, Sealed, seal_slow, IsSealed}
use steel.Platform.{Platform, Log}
use steel.Mpt.Trie.{hash_slow}
use steel.Commitment.{Commitment}
use steel.Config.Spec.{ChainSpec, active_fork}
use steel.Config.Digest.{digest}
use steel.State
use steel.State.{StateDb, insert_at, account}
use steel.Env
use steel.Env.{EvmEnv, from_chain_spec}
use steel.Block.{
  Receipts, BlockInput, BlockHashes, link_ancestors, commit, encodings, all_logs, check_receipts,
  into_env,
}

module _ {H : Type 0} (ops : EvmBlockHeader H) where
  -- A header and those that its chain of parent hashes leads to.
  pub data Descends (top : H) : H → Type 0 where
    here : Descends top top
    parent :
        {x : H} → Descends top x → (y : H) → ops.parent_hash x ≡ ops.hash_slow y → Descends top y

  -- a hash and a number that belong to one ancestor of a header, or to the header
  abbrev pub IsAncestor : H → ℕ → B256 → Type 0
  IsAncestor top number hash =
      (x : H) × Descends top x × (number ≡ ops.number x) × (hash ≡ ops.hash_slow x)

  abbrev Known : H → BlockHashes → Type 0
  Known top hashes =
      (number : ℕ) (hash : B256) → hashes number ≡ some hash → IsAncestor top number hash

  insert_at-Known :
      (top x : H) (hashes : BlockHashes)
      → Descends top x
      → Known top hashes
      → Known top (insert_at hashes (ops.number x) (ops.hash_slow x))
  unfolding insert_at
  insert_at-Known top x hashes below known number hash e =
      elim (Bool-cases (ops.number x == number)) [
        | inl same ↦ (x, below, ground (arith, same), sym (cc (rw same at e)))
        | inr other ↦ known number hash (rw other at e)
      ]

  link_ancestors-Known :
      (top previous : H) (ancestors : List H) (hashes result : BlockHashes)
      → Descends top previous
      → Known top hashes
      → link_ancestors ops previous ancestors hashes ≡ ok result
      → Known top result
  unfolding link_ancestors
  link_ancestors-Known top previous [] hashes result below known e =
      subst (Known top) (ok-injective e) known
  link_ancestors-Known top previous (a ∷ ancestors) hashes result below known e =
      let (linked, rest) =
        assert->> (bytes_eq (ops.parent_hash previous) (ops.hash_slow a)) _ _ e in
      let next = parent below a (bytes_eq→eq _ _ linked) in
      link_ancestors-Known top a ancestors (insert_at hashes (ops.number a) (ops.hash_slow a))
        result next (insert_at-Known top a hashes next known) rest

module _ (p : Platform) {H R S : Type 0} (ops : EvmBlockHeader H) (ids : EvmSpecId S)
    (rs : Receipts R) where
  -- the logs, if there are any, are those of receipts whose root is the header's
  abbrev pub OfReceipts : H → Option (List Log) → Type 0
  OfReceipts header logs =
      (all : List Log)
      → logs ≡ some all
      → (receipts : List R) × (p.ordered_trie_root (encodings rs receipts)
          ≡ ops.receipts_root header)
        × (all ≡ all_logs rs receipts)

  -- An environment whose database, fork and commitment belong to its header.
  pub record IsChecked (spec : ChainSpec S) (env : EvmEnv StateDb S H Commitment) : Type 0 where
    pub sealed : IsSealed ops env.header
    pub state_root : hash_slow p.codec env.db.state_trie ≡ ops.state_root env.header.inner
    pub ancestors :
        (number : ℕ) (hash : B256)
        → env.db.block_hashes number ≡ some hash
        → IsAncestor ops env.header.inner number hash
    pub receipts : OfReceipts env.header.inner env.db.logs
    pub fork :
        active_fork spec (ops.number env.header.inner) (ops.timestamp env.header.inner)
        ≡ ok env.spec_id
    pub commitment :
        (config_id : B256) × (digest p.codec ids spec ≡ ok config_id)
        × (env.commit ≡ commit ops env.header config_id)

  check_receipts-OfReceipts :
      (header : Sealed H) (receipts : Option (List R)) (logs : Option (List Log))
      → check_receipts p ops ids rs header receipts ≡ ok logs
      → OfReceipts header.inner logs
  unfolding check_receipts
  check_receipts-OfReceipts header none logs e = λ all f. absurd (none-some (ok-injective e ∙ f))
    where
      none-some : {all : List Log} → ¬ (none ≡ some all)
      none-some h = cc
  check_receipts-OfReceipts header (some receipts) logs e = λ all f.
      let (root, found) =
        assert->>
          (bytes_eq (ops.receipts_root header.inner) (p.ordered_trie_root (encodings rs receipts)))
          _ _ e in
      (receipts, sym (bytes_eq→eq _ _ root), sym (some-injective (ok-injective found ∙ f)))
    where
      some-injective : {a b : List Log} → some a ≡ some b → a ≡ b
      some-injective h = cc

  from_chain_spec_lem :
      (db : StateDb) (spec : ChainSpec S) (header : Sealed H) (c : Commitment)
      (env : EvmEnv StateDb S H Commitment)
      → from_chain_spec ops db spec header c ≡ ok env
      → (s : S) × (active_fork spec (ops.number header.inner) (ops.timestamp header.inner) ≡ ok s)
        × (record { db = db; chain_id = spec.chain_id; spec_id = s; header = header; commit = c }
            ≡ env)
  unfolding from_chain_spec Env.new
  from_chain_spec_lem db spec header c env e =
      let (s, active, made) = >>=-eq-ok (expect (active_fork spec _ _) _) _ e in
      (s, expect-eq-ok _ _ active, ok-injective made)

  -- An environment made of a block input belongs to the input's header: its state trie hashes to the
  -- header's state root, each block hash it knows is that of the header or of a header on its chain
  -- of parents, under its number, its logs are those of receipts with the header's root, its fork is
  -- the one active in the block, and its commitment is to the header's hash.
  pub into_env-IsChecked :
      (input : BlockInput H R) (spec : ChainSpec S) (env : EvmEnv StateDb S H Commitment)
      → into_env p ops ids rs input spec ≡ ok env
      → IsChecked spec env × (env.header.inner ≡ input.header)
  unfolding into_env State.new commit
  into_env-IsChecked input spec env e =
      let (root, e1) =
        assert->> (bytes_eq (ops.state_root input.header) (hash_slow p.codec input.state_trie)) _ _
          e in
      let (hashes, linked, e2) =
        >>=-eq-ok (link_ancestors ops input.header input.ancestors _) _ e1 in
      let (logs, checked, e3) =
        >>=-eq-ok (check_receipts p ops ids rs (seal_slow ops input.header) input.receipts) _ e2 in
      let (config_id, digested, e4) = >>=-eq-ok (digest p.codec ids spec) _ e3 in
      let (s, active, made) = from_chain_spec_lem _ spec (seal_slow ops input.header) _ env e4 in
      subst (λ v. IsChecked spec v × (v.header.inner ≡ input.header)) made
        (
          record {
            sealed = refl;
            state_root = sym (bytes_eq→eq _ _ root);
            ancestors =
                link_ancestors-Known ops input.header input.header input.ancestors _ hashes here
                  (insert_at-Known ops input.header input.header (λ k. none) here nothing_known)
                  linked;
            receipts =
                check_receipts-OfReceipts (seal_slow ops input.header) input.receipts logs checked;
            fork = active;
            commitment = (config_id, digested, refl);
          },
          refl,
        )
    where
      nothing_known :
          (number : ℕ) (hash : B256) → none ≡ some hash → IsAncestor ops input.header number hash
      nothing_known number hash f = cc

  -- An input without receipts gives an environment without logs, with the header of the input.
  pub into_env-no_logs :
      (input : BlockInput H R) (spec : ChainSpec S) (env : EvmEnv StateDb S H Commitment)
      → input.receipts ≡ none
      → into_env p ops ids rs input spec ≡ ok env
      → (env.db.logs ≡ none) × (env.header ≡ seal_slow ops input.header)
  unfolding into_env State.new check_receipts
  into_env-no_logs input spec env absent e =
      let (root, e1) =
        assert->> (bytes_eq (ops.state_root input.header) (hash_slow p.codec input.state_trie)) _ _
          e in
      let (hashes, linked, e2) =
        >>=-eq-ok (link_ancestors ops input.header input.ancestors _) _ e1 in
      let (logs, checked, e3) =
        >>=-eq-ok (check_receipts p ops ids rs (seal_slow ops input.header) input.receipts) _ e2 in
      let (config_id, digested, e4) = >>=-eq-ok (digest p.codec ids spec) _ e3 in
      let (s, active, made) = from_chain_spec_lem _ spec (seal_slow ops input.header) _ env e4 in
      let same : logs ≡ none = sym (ok-injective (rw absent at checked)) in
      (sym (ap (λ v. v.db.logs) made) ∙ same, sym (ap (λ v. v.header) made))
