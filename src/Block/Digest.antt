-- ===== src/Block/Digest.antt =====
-- The digest of a block commitment fixes what the environment tells of the chain's state.
use steel.Prelude.{ℕ, ◌≡◌, ◌⊎◌, inl, inr, sym, ap, ◌∙◌, Address, Option}
use steel.Outcome.{ok}
use steel.Codec.{Collision}
use steel.Header.{EvmBlockHeader, EvmSpecId}
use steel.Platform.{Platform, StateAccount, AccountInfo}
use steel.Mpt.Trie.{hash_slow}
use steel.Mpt.Laws.{Laws}
use steel.Commitment
use steel.Commitment.{Commitment}
use steel.Config.Spec.{ChainSpec}
use steel.State.{StateDb, WrapStateDb, account, wrap, basic, storage}
use steel.State.Binding.{IsWellFormed, account-binding, storage-binding}
use steel.Env.{EvmEnv}
use steel.Block.{Receipts, BlockInput, commit, into_env}
use steel.Block.Binding.{IsChecked, into_env-IsChecked}

module _ (p : Platform) {H R S : Type 0} (ops : EvmBlockHeader H) (ids : EvmSpecId S)
    (rs : Receipts R) where
  commit_seal :
      (spec : ChainSpec S) (env : EvmEnv StateDb S H Commitment)
      → IsChecked p ops ids rs spec env
      → env.commit.digest ≡ ops.hash_slow env.header.inner
  unfolding commit Commitment.new
  commit_seal spec env checked =
      let (config_id, digested, made) = checked.commitment in
      ap (λ (c : Commitment). c.digest) made ∙ checked.sealed

  module _ (laws : Laws p.codec)
      (headers : (x y : H)
        → ops.hash_slow x ≡ ops.hash_slow y
        → (x ≡ y) ⊎ Collision p.codec.keccak256) where
    -- Two environments whose commitments have one digest have one state root.
    digest-state_root :
        (input other : BlockInput H R) (spec spec' : ChainSpec S)
        (env env' : EvmEnv StateDb S H Commitment)
        → into_env p ops ids rs input spec ≡ ok env
        → into_env p ops ids rs other spec' ≡ ok env'
        → env.commit.digest ≡ env'.commit.digest
        → (hash_slow p.codec env.db.state_trie ≡ hash_slow p.codec env'.db.state_trie)
          ⊎ Collision p.codec.keccak256
    digest-state_root input other spec spec' env env' made made' same =
        let x = (into_env-IsChecked p ops ids rs input spec env made).0 in
        let y = (into_env-IsChecked p ops ids rs other spec' env' made').0 in
        elim (headers env.header.inner env'.header.inner
          (sym (commit_seal spec env x) ∙ same ∙ commit_seal spec' env' y)) [
            | inl one ↦ inl (x.state_root ∙ ap ops.state_root one ∙ sym y.state_root)
            | inr collision ↦ inr collision
          ]

    -- Two environments made of block inputs, whose databases are well formed and whose commitments
    -- have one digest, give the same answer for an account, or keccak256 collides on two inputs.
    -- Headers with one hash are one header, or else keccak256 collides on their encodings.
    pub digest-account :
        (input other : BlockInput H R) (spec spec' : ChainSpec S)
        (env env' : EvmEnv StateDb S H Commitment) (address : Address) (a b : Option StateAccount)
        → IsWellFormed p env.db
        → IsWellFormed p env'.db
        → into_env p ops ids rs input spec ≡ ok env
        → into_env p ops ids rs other spec' ≡ ok env'
        → env.commit.digest ≡ env'.commit.digest
        → account p env.db address ≡ ok a
        → account p env'.db address ≡ ok b
        → (a ≡ b) ⊎ Collision p.codec.keccak256
    digest-account input other spec spec' env env' address a b good good' made made' same g g' =
        elim (digest-state_root input other spec spec' env env' made made' same) [
          | inl roots ↦ account-binding p laws env.db env'.db address a b good good' roots g g'
          | inr collision ↦ inr collision
        ]

    -- Two environments made of block inputs, whose databases are well formed and whose commitments
    -- have one digest, give the same value for a slot of an account that was asked for first, or
    -- keccak256 collides on two inputs. Headers with one hash are one header, or else keccak256
    -- collides on their encodings. That the databases are well formed is not checked of an input.
    pub digest-storage :
        (input other : BlockInput H R) (spec spec' : ChainSpec S)
        (env env' : EvmEnv StateDb S H Commitment) (address : Address) (index v u : ℕ)
        (info info' : Option AccountInfo) (w w' : WrapStateDb H)
        → IsWellFormed p env.db
        → IsWellFormed p env'.db
        → into_env p ops ids rs input spec ≡ ok env
        → into_env p ops ids rs other spec' ≡ ok env'
        → env.commit.digest ≡ env'.commit.digest
        → basic p (wrap env.db env.header) address ≡ ok (info, w)
        → basic p (wrap env'.db env'.header) address ≡ ok (info', w')
        → storage p w address index ≡ ok v
        → storage p w' address index ≡ ok u
        → (v ≡ u) ⊎ Collision p.codec.keccak256
    digest-storage input other spec spec' env env' address index v u info info' w w' good good' made
          made' same b b' s s' =
        elim (digest-state_root input other spec spec' env env' made made' same) [
          | inl roots ↦
              storage-binding p laws env.db env'.db env.header env'.header address index v u info
                info' w w' good good' roots b b' s s'
          | inr collision ↦ inr collision
        ]
