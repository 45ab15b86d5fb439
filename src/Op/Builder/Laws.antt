-- ===== src/Op/Builder/Laws.antt =====
-- crates/op-steel/src/optimism/host.rs: the order of the setters, and the commitment to a game.
use steel.Prelude.{
  ℕ, ◌≡◌, ◌≢◌, refl, sym, ap, ◌∙◌, subst, Bytes, Option, not, ltb, ◌==◌, ◌^◌, bytes_eq, bytes_eq→eq,
  bytes_eq_refl,
}
use steel.Outcome.{ok, >>=-eq-ok, assert->>, ok-injective}
use steel.Header.{EvmBlockHeader, EvmSpecId}
use steel.Platform.{Platform}
use steel.Commitment
use steel.Commitment.{Commitment}
use steel.Config.Spec.{ChainSpec}
use steel.Block
use steel.Game
use steel.Game.{DisputeGameCommit, OutputRootProof, hash}
use steel.Rpc.{Network, Provider, context}
use steel.Host.Provider.{ProviderDb, default_chunk_size}
use steel.Host.Env
use steel.Host.EndToEnd.{build-IsBuilt}
use steel.Host.Builder
use steel.Host.Builder.{Nothing}
use steel.Op.Portal.{dispute_game}
use steel.Op.Builder.{
  OpEvmEnvBuilder, OpEvmEnv, DisputeGameConfig, eip1186_proof_chunk_size, provider, build_game,
  commitment,
}

size_set :
    {P S G : Type 0} (self : OpEvmEnvBuilder P S G) (size : ℕ) (sized : OpEvmEnvBuilder P S G)
    → eip1186_proof_chunk_size self size ≡ ok sized
    → sized.inner.chunk_size ≡ size
unfolding eip1186_proof_chunk_size Builder.eip1186_proof_chunk_size
size_set self size sized e =
    let (inner, p, q) = >>=-eq-ok (Builder.eip1186_proof_chunk_size self.inner size) _ e in
    let (_, r) = assert->> (not (size == 0)) "chunk size must be non-zero" _ p in
    sym (ap (λ x. x.inner.chunk_size) (ok-injective q))
    ∙ sym (ap (λ x. x.chunk_size) (ok-injective r))

-- The order of the calls matters: with any size but the default one, a builder whose size is set
-- before its provider requests proofs in chunks of another size than one whose size is set after it.
pub chunk_size_order :
    {P G : Type 0} (self sized : OpEvmEnvBuilder Nothing Nothing G)
    (later : OpEvmEnvBuilder P Nothing G) (size : ℕ) (node : P)
    → size ≢ default_chunk_size
    → eip1186_proof_chunk_size self size ≡ ok sized
    → eip1186_proof_chunk_size (provider self node) size ≡ ok later
    → (provider sized node).inner.chunk_size ≢ later.inner.chunk_size
unfolding provider Builder.provider
chunk_size_order self sized later size node other before after same =
    other (sym (same ∙ size_set (provider self node) size later after))

module _ {HR RR H R S : Type 0} (p : Platform) (fuel : ℕ) (net : Network HR RR H R)
    (ops : EvmBlockHeader H) (ids : EvmSpecId S) where
  commitment_lem :
      (abi_encode : OutputRootProof → Bytes)
      (env : OpEvmEnv (ProviderDb HR RR) S H DisputeGameCommit)
      → env.commit.proof.latest_blockhash ≡ env.inner.header.seal
      → commitment p fuel net ops ids (Game.commit p.codec abi_encode) env
        ≡ ok (
            Commitment.new 0x100 env.commit.game_index
              (hash p.codec abi_encode env.commit.proof)
              env.inner.commit.config_id)
  unfolding commitment Env.commitment Block.commit Game.commit Commitment.new
  commitment_lem abi_encode env named = rw (named, bytes_eq_refl env.inner.header.seal) refl

  -- An environment that commits to a game has a commitment, and no panic: it has the version 0x100,
  -- the index of the game, the output root of the game and the identifier of the configuration. The
  -- output root names the hash of the block of the environment.
  pub build_game-commitment :
      (abi_encode : OutputRootProof → Bytes) (abi_decode : Bytes → Option ℕ)
      (self : OpEvmEnvBuilder (Provider HR RR) (ChainSpec S) DisputeGameConfig)
      (env : OpEvmEnv (ProviderDb HR RR) S H DisputeGameCommit)
      → build_game p fuel net ops ids abi_encode abi_decode self ≡ ok env
      → (commitment p fuel net ops ids (Game.commit p.codec abi_encode) env
          ≡ ok (
              Commitment.new 0x100 env.commit.game_index
                (hash p.codec abi_encode env.commit.proof)
                env.inner.commit.config_id))
        × (env.commit.proof.latest_blockhash ≡ env.inner.header.seal)
  unfolding build_game
  build_game-commitment abi_encode abi_decode self env e =
      let (chosen, _, e1) =
        >>=-eq-ok
          (context
            (dispute_game net self.l2_provider p.codec abi_encode abi_decode
              self.dispute_game_config.portal self.dispute_game_config.index)
            "failed to get dispute game from portal")
          _ e in
      let (inner, built, e2) =
        >>=-eq-ok
          (Builder.build net ops p ids (Builder.block_number self.inner chosen.l2_block_number)) _
          e1 in
      let (same, e3) =
        assert->>
          (bytes_eq chosen.output_root_proof.latest_blockhash (ops.hash_slow inner.header.inner))
          "assertion `left == right` failed" _ e2 in
      let (small, e4) = assert->> (ltb chosen.index (2 ^ 64)) "Uint conversion error" _ e3 in
      let (h, (id, spec_id, digested, active, made)) =
        build-IsBuilt p net ops ids (Builder.block_number self.inner chosen.l2_block_number)
          built in
      let header : inner.header.seal ≡ ops.hash_slow inner.header.inner =
        subst (λ x. x.header.seal ≡ ops.hash_slow x.header.inner) made refl in
      let hashes : chosen.output_root_proof.latest_blockhash ≡ inner.header.seal =
        bytes_eq→eq _ _ same ∙ sym header in
      let named : env.commit.proof.latest_blockhash ≡ env.inner.header.seal =
        subst (λ x. x.commit.proof.latest_blockhash ≡ x.inner.header.seal) (ok-injective e4)
          hashes in
      (commitment_lem abi_encode env named, named)
