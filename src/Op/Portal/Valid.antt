-- ===== src/Op/Portal/Valid.antt =====
-- crates/op-steel/src/game.rs, `host`: the claim of the game that is chosen.
use steel.Prelude.{
  ℕ, ◌≡◌, refl, subst, Bytes, true, false, Option, none, some, List, [], ◌∷◌, ◌⊎◌, inl, inr,
  bytes_eq, bytes_eq→eq, ◌==◌, ==_iff, if◌then◌else◌, Bool,
}
use steel.Outcome.{Outcome, ok, message, >>=-eq-ok, guard->>, ok-injective}
use steel.Codec.{Codec}
use steel.Rpc.{Network, Provider, context}
use steel.Config.Fork.{Any}
use steel.Game.{OutputRootProof, hash}
use steel.Host.Accepted.{context-eq-ok}
use steel.Op.Portal.{
  FoundGame, Portal, DisputeGame, number, from_provider, check_game, first_valid, find_latest_game,
  start_index, exact_game, dispute_game, dispute_game_of, dispute_game_fetch_count,
}

module _ {HR RR H R : Type 0} (net : Network HR RR H R) (l2 : Provider HR RR) (c : Codec)
    (abi_encode : OutputRootProof → Bytes) (abi_decode : Bytes → Option ℕ) (portal : Portal) where
  -- A game of the contract whose claim is the output root that the L2 node gives for its block.
  abbrev pub IsClaimed : DisputeGame → FoundGame → Type 0
  IsClaimed chosen game =
      (chosen.index ≡ game.index)
      × (abi_decode game.extra_data ≡ some chosen.l2_block_number)
      × (from_provider net l2 chosen.l2_block_number ≡ ok chosen.output_root_proof)
      × (game.root_claim ≡ hash c abi_encode chosen.output_root_proof)

  check_game-IsClaimed :
      (game : FoundGame) (decoded : Option ℕ) (others : Outcome DisputeGame) (chosen : DisputeGame)
      → abi_decode game.extra_data ≡ decoded
      → check_game net l2 c abi_encode abi_decode portal game decoded others ≡ ok chosen
      → IsClaimed chosen game ⊎ (others ≡ ok chosen)
  unfolding check_game
  check_game-IsClaimed game none others chosen d e = inr e
  check_game-IsClaimed game (some n) others chosen d e =
      let (proof, p, q) =
        >>=-eq-ok (context (from_provider net l2 n) "failed to create OutputRootProof for game") _
          e in
      at proof (context-eq-ok (from_provider net l2 n) _ p)
        (bytes_eq game.root_claim (hash c abi_encode proof)) refl q
    where
      at :
          (proof : OutputRootProof)
          → from_provider net l2 n ≡ ok proof
          → (b : Bool) → bytes_eq game.root_claim (hash c abi_encode proof) ≡ b
          → (if b
              then ok
                  (record { index = game.index; l2_block_number = n; output_root_proof = proof })
              else others)
            ≡ ok chosen
          → IsClaimed chosen game ⊎ (others ≡ ok chosen)
      at proof p true h r =
          inl (subst (λ x. IsClaimed x game) (ok-injective r) (refl, d, p, bytes_eq→eq _ _ h))
      at proof p false h r = inr r

  first_valid-IsClaimed :
      (games : List FoundGame) (chosen : DisputeGame)
      → first_valid net l2 c abi_encode abi_decode portal games ≡ ok chosen
      → Any (IsClaimed chosen) games
  unfolding first_valid
  first_valid-IsClaimed [] chosen e = cc
  first_valid-IsClaimed (game ∷ games) chosen e =
      elim (check_game-IsClaimed game (abi_decode game.extra_data)
        (first_valid net l2 c abi_encode abi_decode portal games) chosen refl e) [
          | inl found ↦ inl found
          | inr rest ↦ inr (first_valid-IsClaimed games chosen rest)
        ]

  -- A dispute game that is chosen by its number has this number, and is one of the games that the
  -- contract gives for it: one whose extra data names the block, and whose claim is the output root
  -- that the L2 node gives for this block.
  pub dispute_game-IsClaimed :
      (index : ℕ) (chosen : DisputeGame)
      → dispute_game net l2 c abi_encode abi_decode portal (number index) ≡ ok chosen
      → (chosen.index ≡ index)
        × ((game_type : ℕ) × (games : List FoundGame) × (portal.find_latest_games game_type index
                dispute_game_fetch_count
              ≡ ok games)
            × Any (IsClaimed chosen) games)
  unfolding dispute_game dispute_game_of exact_game find_latest_game start_index
  dispute_game-IsClaimed index chosen e =
      let (game_type, _, e1) = >>=-eq-ok portal.respected_game_type _ e in
      let (game, found, e2) =
        >>=-eq-ok (find_latest_game net l2 c abi_encode abi_decode portal game_type (some index)) _
          e1 in
      let (same, e3) =
        guard->> (game.index == index) (message "invalid dispute game at index") _ e2 in
      let (games, served, e4) =
        >>=-eq-ok (portal.find_latest_games game_type index dispute_game_fetch_count) _ found in
      subst
        (λ x.
          (x.index ≡ index)
          × ((game_type : ℕ) × (games : List FoundGame) × (portal.find_latest_games game_type index
                  dispute_game_fetch_count
                ≡ ok games)
              × Any (IsClaimed x) games))
        (ok-injective e3)
        (
          (==_iff game.index index).0 same,
          (game_type, games, served, first_valid-IsClaimed games game e4),
        )
