-- ===== src/Config/Binding.antt =====
-- The digest of a configuration fixes the chain and its forks.
use steel.Prelude.{
  ℕ, ◌*◌, ◌^◌, ◌<◌, ◌≡◌, ◌⊎◌, inl, inr, refl, sym, ap, ap₂, ◌∙◌, Bytes, B256, List, [], ◌∷◌, ◌++◌,
  arith, length, length-append, append-injective, bytes_eq, bytes_eq→eq, bytes_eq-ne, All,
  Bool-cases,
}
use steel.Outcome.{ok, ok-injective, assert->>}
use steel.Codec.{Codec, Collision}
use steel.Header.{EvmSpecId}
use steel.Words.{to_le_bytes, length-to_le_bytes, to_le_bytes-injective}
use steel.Config.Spec.{ForkCondition, block, timestamp, ChainSpec}
use steel.Config.Digest.{
  condition_bytes, fork_bytes, fork_digest, fork_digests, chain_bytes, digest, block_tag,
  timestamp_tag, chain_spec_tag,
}

-- The numbers of a configuration fit their machine integers.
abbrev pub condition_value : ForkCondition → ℕ
condition_value (block n) = n
condition_value (timestamp t) = t

condition_eq :
    (f g : ForkCondition)
    → condition_value f < 2 ^ 64
    → condition_value g < 2 ^ 64
    → condition_bytes f ≡ condition_bytes g
    → f ≡ g
unfolding condition_bytes
condition_eq (block n) (block m) hf hg e =
    ap block
      (to_le_bytes-injective 8 n m hf hg ((append-injective block_tag block_tag _ _ refl e).1))
condition_eq (block n) (timestamp u) hf hg e =
    absurd (omega (arith, ap length e, length-to_le_bytes 8 n, length-to_le_bytes 8 u))
condition_eq (timestamp t) (block m) hf hg e =
    absurd (omega (arith, ap length e, length-to_le_bytes 8 t, length-to_le_bytes 8 m))
condition_eq (timestamp t) (timestamp u) hf hg e = ap timestamp (
    to_le_bytes-injective 8 t u hf hg ((append-injective timestamp_tag timestamp_tag _ _ refl e).1))

module _ (c : Codec) (sized : (x : Bytes) → length (c.sha256 x) ≡ 32) {S : Type 0}
    (ids : EvmSpecId S) (to_u32-injective : (s t : S) → ids.to_u32 s ≡ ids.to_u32 t → s ≡ t)
    (to_u32-lt : (s : S) → ids.to_u32 s < 2 ^ 32) where
  abbrev Agree : {A : Type 0} → A → A → Type 0
  Agree a b = (a ≡ b) ⊎ Collision c.sha256

  abbrev InRange : S × ForkCondition → Type 0
  InRange e = condition_value e.1 < 2 ^ 64

  sha256_eq : (x y : Bytes) → c.sha256 x ≡ c.sha256 y → Agree x y
  sha256_eq x y e = elim (Bool-cases (bytes_eq x y)) [
    | inl same ↦ inl (bytes_eq→eq x y same)
    | inr other ↦ inr (x, y, bytes_eq-ne x y other, e)
  ]

  fork_bytes_eq :
      (s t : S) (f g : ForkCondition)
      → InRange (s, f)
      → InRange (t, g)
      → fork_bytes c ids (s, f) ≡ fork_bytes c ids (t, g)
      → ◌≡◌ {A = S × ForkCondition} (s, f) (t, g)
  unfolding fork_bytes
  fork_bytes_eq s t f g hf hg e =
      let (p, q) =
        append-injective (to_le_bytes 4 (ids.to_u32 s)) (to_le_bytes 4 (ids.to_u32 t)) _ _
          (length-to_le_bytes 4 _ ∙ sym (length-to_le_bytes 4 _)) e in
      let ids_eq =
        to_u32-injective s t (to_le_bytes-injective 4 _ _ (to_u32-lt s) (to_u32-lt t) p) in
      let conditions = condition_eq f g hf hg q in λ i. (ids_eq i, conditions i)

  length-fork_digests :
      (forks : List (S × ForkCondition)) → length (fork_digests c ids forks) ≡ 32 * length forks
  unfolding fork_digests
  length-fork_digests [] = refl
  length-fork_digests (e ∷ forks) = omega (
    arith,
    length-append (fork_digest c ids e) (fork_digests c ids forks),
    sized (fork_bytes c ids e),
    length-fork_digests forks,
  )

  forks_eq :
      (forks other : List (S × ForkCondition))
      → All InRange forks
      → All InRange other
      → length forks ≡ length other
      → fork_digests c ids forks ≡ fork_digests c ids other
      → Agree forks other
  unfolding fork_digests
  forks_eq [] [] h k l e = inl refl
  forks_eq [] (g ∷ other) h k l e = absurd (omega arith)
  forks_eq (f ∷ forks) [] h k l e = absurd (omega arith)
  forks_eq (f ∷ forks) (g ∷ other) h k l e =
      let (p, q) =
        append-injective (fork_digest c ids f) (fork_digest c ids g) _ _ (sized _ ∙ sym (sized _))
          e in
      elim (sha256_eq (fork_bytes c ids f) (fork_bytes c ids g) p) [
        | inr collision ↦ inr collision
        | inl same ↦ elim (forks_eq forks other h.1 k.1 (omega arith) q) [
          | inr collision ↦ inr collision
          | inl rest ↦ inl (ap₂ ◌∷◌ (fork_bytes_eq f.0 g.0 f.1 g.1 h.0 k.0 same) rest)
        ]
      ]

  chain_eq :
      (a b : ChainSpec S)
      → a.chain_id < 2 ^ 64
      → b.chain_id < 2 ^ 64
      → All InRange a.forks
      → All InRange b.forks
      → chain_bytes c ids a ≡ chain_bytes c ids b
      → (a.chain_id ≡ b.chain_id) × Agree a.forks b.forks
  unfolding chain_bytes
  chain_eq a b ha hb fa fb e =
      let da = fork_digests c ids a.forks in
      let db = fork_digests c ids b.forks in
      let la = to_le_bytes 8 a.chain_id in
      let lb = to_le_bytes 8 b.chain_id in
      let (_, rest) =
        append-injective (c.sha256 chain_spec_tag) (c.sha256 chain_spec_tag) _ _ refl e in
      let total = ap length rest in
      let count : length a.forks ≡ length b.forks = omega (
        arith,
        total,
        length-append da (la ++ to_le_bytes 2 (length a.forks)),
        length-append db (lb ++ to_le_bytes 2 (length b.forks)),
        length-append la (to_le_bytes 2 (length a.forks)),
        length-append lb (to_le_bytes 2 (length b.forks)),
        length-to_le_bytes 8 a.chain_id,
        length-to_le_bytes 8 b.chain_id,
        length-to_le_bytes 2 (length a.forks),
        length-to_le_bytes 2 (length b.forks),
        length-fork_digests a.forks,
        length-fork_digests b.forks,
      ) in
      let (p, q) =
        append-injective da db _ _
          (length-fork_digests a.forks ∙ ap (λ n. 32 * n) count ∙ sym (length-fork_digests b.forks))
          rest in
      let (r, _) =
        append-injective la lb _ _ (length-to_le_bytes 8 _ ∙ sym (length-to_le_bytes 8 _)) q in
      (
        to_le_bytes-injective 8 a.chain_id b.chain_id ha hb r,
        forks_eq a.forks b.forks fa fb count p,
      )

  -- If two configurations have the same digest, then they have the same chain ID and the same forks,
  -- or there are two inputs, given here, on which sha256 collides. The numbers fit their 64 bits, and
  -- the identifiers of the forks are distinct and fit 32 bits.
  pub digest-binding :
      (a b : ChainSpec S) (d : B256)
      → a.chain_id < 2 ^ 64
      → b.chain_id < 2 ^ 64
      → All InRange a.forks
      → All InRange b.forks
      → digest c ids a ≡ ok d
      → digest c ids b ≡ ok d
      → ((a.chain_id ≡ b.chain_id) × (a.forks ≡ b.forks)) ⊎ Collision c.sha256
  unfolding digest
  digest-binding a b d ha hb fa fb e e' =
      let p = (assert->> _ _ _ e).1 in
      let q = (assert->> _ _ _ e').1 in
      let hashes = ok-injective (p ∙ sym q) in
      elim (sha256_eq (chain_bytes c ids a) (chain_bytes c ids b) hashes) [
        | inr collision ↦ inr collision
        | inl same ↦
            let (i, f) = chain_eq a b ha hb fa fb same in
            elim f [ inl forks ↦ inl (i, forks) | inr collision ↦ inr collision ]
      ]
