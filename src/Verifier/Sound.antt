-- ===== src/Verifier/Sound.antt =====
-- What a commitment that is verified has been checked against.
use steel.Prelude.{
  ℕ, ◌^◌, ◌<◌, ◌≡◌, ◌⊎◌, inl, inr, refl, ap, subst, ◌∙◌, B256, true, false, Option, none, some,
  bytes_eq, bytes_eq→eq,
}
use steel.Outcome.{ok, expect, assert->>, assert-eq-ok, >>=-eq-ok, expect-eq-ok, ok-injective}
use steel.Header.{EvmBlockHeader, EvmSpecId}
use steel.Platform.{Platform}
use steel.Commitment.{CommitmentVersion, block, beacon, consensus, n, Commitment, decode_id}
use steel.Config.Spec.{ChainSpec}
use steel.State.{StateDb, block_hash, or_panic}
use steel.Env.{EvmEnv}
use steel.Block.{Receipts, BlockInput, into_env}
use steel.Block.Binding.{IsAncestor, into_env-IsChecked}
use steel.Verifier.{
  Evm, beacon_roots_call, known_block_hash, check_version, verify_with_config_id, verify,
}
use steel.Verifier.Window.{validate_history_window_lem}

module _ {H S : Type 0} (evm : Evm) (ops : EvmBlockHeader H) (ids : EvmSpecId S) where
  -- A block hash that the environment has, or a beacon root that the contract has where the fork has
  -- the contract.
  abbrev pub IsVerified : EvmEnv StateDb S H Commitment → Commitment → Type 0
  IsVerified env c =
      ((n (decode_id c).1 ≡ some block)
        × (known_block_hash evm ops ids env (decode_id c).0 ≡ ok c.digest))
      ⊎ ((n (decode_id c).1 ≡ some beacon)
          × (ids.has_eip4788 env.spec_id ≡ true)
          × (beacon_roots_call evm (decode_id c).0 ≡ ok c.digest))

  check_version_lem :
      (env : EvmEnv StateDb S H Commitment) (c : Commitment) (v : Option CommitmentVersion)
      {u : Unit {0}}
      → n (decode_id c).1 ≡ v
      → check_version evm ops ids env c (decode_id c).0 v ≡ ok u
      → IsVerified env c
  unfolding check_version
  check_version_lem env c (some block) v_eq e =
      let (hash, known, e1) = >>=-eq-ok (known_block_hash evm ops ids env (decode_id c).0) _ e in
      let same = bytes_eq→eq hash c.digest (assert-eq-ok _ _ e1) in inl (v_eq, known ∙ ap ok same)
  check_version_lem env c (some beacon) v_eq e =
      let (active, e1) = assert->> (ids.has_eip4788 env.spec_id) _ _ e in
      let (root, told, e2) = >>=-eq-ok (beacon_roots_call evm (decode_id c).0) _ e1 in
      let same = bytes_eq→eq root c.digest (assert-eq-ok _ _ e2) in
      inr (v_eq, active, told ∙ ap ok same)
  check_version_lem env c (some consensus) v_eq e = cc
  check_version_lem env c none v_eq e = cc

  -- A commitment that is verified has the configuration of the environment, and it is a block's with
  -- the hash that the environment has for its number, or, where the fork has EIP-4788, a beacon
  -- block's with the root that the contract has for its timestamp.
  pub verify_lem :
      (env : EvmEnv StateDb S H Commitment) (c : Commitment) {u : Unit {0}}
      → verify evm ops ids env c ≡ ok u
      → (c.config_id ≡ env.commit.config_id) × IsVerified env c
  unfolding verify verify_with_config_id
  verify_lem env c e =
      let (config, e1) = assert->> (bytes_eq c.config_id env.commit.config_id) _ _ e in
      (bytes_eq→eq _ _ config, check_version_lem env c (n (decode_id c).1) refl e1)

  module _ (p : Platform) {R : Type 0} (rs : Receipts R) where
    or_panic-some : (o : Option B256) (h : B256) → or_panic o ≡ ok h → o ≡ some h
    or_panic-some none h e = cc
    or_panic-some (some x) h e = ap some (ok-injective e)

    block_hash-IsAncestor :
        (env : EvmEnv StateDb S H Commitment) (id : ℕ) (hash : B256)
        → ((k : ℕ) (h : B256)
            → env.db.block_hashes k ≡ some h
            → IsAncestor ops env.header.inner k h)
        → ids.has_eip2935 env.spec_id ≡ false
        → ops.number env.header.inner < 2 ^ 64
        → known_block_hash evm ops ids env id ≡ ok hash
        → IsAncestor ops env.header.inner id hash
    unfolding known_block_hash block_hash
    block_hash-IsAncestor env id hash known no_eip2935 small e =
        let (k, windowed, e1) = >>=-eq-ok (expect _ _) _ (rw no_eip2935 at e) in
        let inside =
          (validate_history_window_lem ops env.header.inner id 256 k small).0
            (expect-eq-ok _ _ windowed) in
        subst (λ j. IsAncestor ops env.header.inner j hash) (inside.0)
          (known k hash (or_panic-some _ hash e1))

    -- A block commitment that is verified in an environment made of a block input, where the fork has
    -- no EIP-2935, is to the block itself or to a header on its chain of parents, under its number.
    pub verify-IsAncestor :
        (input : BlockInput H R) (spec : ChainSpec S) (env : EvmEnv StateDb S H Commitment)
        (c : Commitment) {u : Unit {0}}
        → into_env p ops ids rs input spec ≡ ok env
        → ids.has_eip2935 env.spec_id ≡ false
        → ops.number env.header.inner < 2 ^ 64
        → n (decode_id c).1 ≡ some block
        → verify evm ops ids env c ≡ ok u
        → IsAncestor ops env.header.inner (decode_id c).0 c.digest
    verify-IsAncestor input spec env c made no_eip2935 small is_block e =
        let checked = (into_env-IsChecked p ops ids rs input spec env made).0 in
        elim (verify_lem env c e).1 [
          | inl (_, known) ↦
              block_hash-IsAncestor env (decode_id c).0 c.digest checked.ancestors no_eip2935 small
                known
          | inr (is_beacon, _, _) ↦ cc
        ]
