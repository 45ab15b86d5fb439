-- ===== src/Input/Digest.antt =====
-- crates/steel/src/lib.rs, `EvmInput::Beacon`: the digest of a beacon commitment and the state of the
-- chain.
use steel.Prelude.{ℕ, ◌≡◌, ◌⊎◌, inl, inr, sym, ap, subst, ◌∙◌, Bytes, B256, Address, Option, All}
use steel.Outcome.{ok, >>=-eq-ok, ok-injective}
use steel.Codec.{Collision}
use steel.Header.{EvmBlockHeader, EvmSpecId}
use steel.Platform.{Platform, AccountInfo}
use steel.Mpt.Trie.{hash_slow}
use steel.Mpt.Laws.{Laws}
use steel.Merkle.Binding.{IsDigest}
use steel.Commitment.{Commitment}
use steel.Config.Spec.{ChainSpec}
use steel.State.{StateDb, WrapStateDb, wrap, basic, storage}
use steel.State.Binding.{IsWellFormed, storage-binding}
use steel.Env.{EvmEnv}
use steel.Block
use steel.Block.{BlockInput, Receipts}
use steel.Block.Binding.{into_env-IsChecked}
use steel.Beacon
use steel.Beacon.{BeaconCommit, block_hash_leaf_index}
use steel.Beacon.Binding.{commit-seal}
use steel.Input.{ComposeInput, beacon, compose, into_env}

module _ (p : Platform) {H R S : Type 0} (ops : EvmBlockHeader H) (ids : EvmSpecId S)
    (rs : Receipts R) where
  -- A beacon input, and the environment that the guest makes of it: its database and its header are
  -- those of the checked environment of its block, and its commitment is made for that header.
  record IsComposed (input : ComposeInput H R BeaconCommit) (env : EvmEnv StateDb S H Commitment)
      : Type 0 where
    pub config_id : B256
    pub sealed : env.header.seal ≡ ops.hash_slow env.header.inner
    pub state_root : hash_slow p.codec env.db.state_trie ≡ ops.state_root env.header.inner
    pub committed :
        Beacon.commit p.codec block_hash_leaf_index input.commit env.header config_id
        ≡ ok env.commit

  into_env-IsComposed :
      (input : ComposeInput H R BeaconCommit) (spec : ChainSpec S)
      (env : EvmEnv StateDb S H Commitment)
      → into_env p ops ids rs (beacon input) spec ≡ ok env
      → IsComposed input env
  unfolding into_env compose
  into_env-IsComposed input spec env e =
      let (b, made, e1) = >>=-eq-ok (Block.into_env p ops ids rs input.input spec) _ e in
      let (k, committed, last) =
        >>=-eq-ok
          (Beacon.commit p.codec block_hash_leaf_index input.commit b.header b.commit.config_id) _
          e1 in
      let checked = (into_env-IsChecked p ops ids rs input.input spec b made).0 in
      subst (IsComposed input) (ok-injective last) (record {
        config_id = b.commit.config_id;
        sealed = checked.sealed;
        state_root = checked.state_root;
        committed = committed;
      })

  module _ (laws : Laws p.codec)
      (headers : (x y : H)
        → ops.hash_slow x ≡ ops.hash_slow y
        → (x ≡ y) ⊎ Collision p.codec.keccak256)
      (sha_sized : (x : Bytes) → IsDigest (p.codec.sha256 x))
      (hash_sized : (x : H) → IsDigest (ops.hash_slow x)) where
    -- Two guest environments made of beacon inputs, whose databases are well formed and whose
    -- commitments have one beacon root as their digest, give the same value for a slot of an account
    -- that was asked for first, or sha256 or keccak256 collides on two inputs. Hashes and siblings
    -- have 32 bytes, and headers with one hash are one header, or else keccak256 collides on their
    -- encodings. That the databases are well formed is not checked of an input.
    pub beacon-storage :
        (input other : ComposeInput H R BeaconCommit) (spec spec' : ChainSpec S)
        (env env' : EvmEnv StateDb S H Commitment) (address : Address) (index v u : ℕ)
        (info info' : Option AccountInfo) (w w' : WrapStateDb H)
        → IsWellFormed p env.db
        → IsWellFormed p env'.db
        → All IsDigest input.commit.proof
        → All IsDigest other.commit.proof
        → into_env p ops ids rs (beacon input) spec ≡ ok env
        → into_env p ops ids rs (beacon other) spec' ≡ ok env'
        → env.commit.digest ≡ env'.commit.digest
        → basic p (wrap env.db env.header) address ≡ ok (info, w)
        → basic p (wrap env'.db env'.header) address ≡ ok (info', w')
        → storage p w address index ≡ ok v
        → storage p w' address index ≡ ok u
        → (v ≡ u) ⊎ (Collision p.codec.sha256 ⊎ Collision p.codec.keccak256)
    beacon-storage input other spec spec' env env' address index v u info info' w w' good good'
          proof proof' made made' same b b' s s' =
        let x = into_env-IsComposed input spec env made in
        let y = into_env-IsComposed other spec' env' made' in
        let sized = subst IsDigest (sym x.sealed) (hash_sized env.header.inner) in
        let sized' = subst IsDigest (sym y.sealed) (hash_sized env'.header.inner) in
        elim (commit-seal p.codec block_hash_leaf_index sha_sized input.commit other.commit
          env.header env'.header x.config_id y.config_id env.commit env'.commit sized sized' proof
          proof' x.committed y.committed same) [
            | inr collision ↦ inr (inl collision)
            | inl seals ↦
                elim (headers env.header.inner env'.header.inner
                  (sym x.sealed ∙ seals ∙ y.sealed)) [
                    | inr collision ↦ inr (inr collision)
                    | inl one ↦
                        elim (storage-binding p laws env.db env'.db env.header env'.header address
                          index v u info info' w w' good good'
                          (x.state_root ∙ ap ops.state_root one ∙ sym y.state_root) b b' s s') [
                            | inl values ↦ inl values
                            | inr collision ↦ inr (inr collision)
                          ]
                  ]
          ]
