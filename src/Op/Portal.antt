-- ===== src/Op/Portal.antt =====
-- crates/op-steel/src/game.rs, `host`: the dispute game that is committed to.
pub mod Valid
use steel.Prelude.{
  ℕ, ◌+◌, ◌-◌, ◌%◌, ◌^◌, Bytes, B256, Bool, true, false, Option, none, some, List, [], ◌∷◌, ◌==◌,
  bytes_eq, if◌then◌else◌,
}
use steel.Outcome.{Outcome, ok, err, guard, message, ◌>>=◌, ◌>>◌}
use steel.Codec.{Codec}
use steel.Merkle.Tree.{zero_hash}
use steel.Rpc
use steel.Rpc.{Provider, Network, context, or_err}
use steel.Game
use steel.Game.{OutputRootProof}

-- `GameSearchResult`
pub record FoundGame : Type 0 where
  pub index : ℕ
  pub root_claim : B256
  pub extra_data : Bytes

-- What the code asks of the contracts of the L1: the portal, the factory of games, and the finder,
-- whose answer is none where it reverts with `GameNotFound`.
pub record Portal : Type 0 where
  pub respected_game_type : Outcome ℕ
  pub game_count : Outcome ℕ
  pub find_latest_games : ℕ → ℕ → ℕ → Outcome (List FoundGame)
  pub find_finalized_index : Outcome (Option ℕ)

pub data DisputeGameIndex : Type 0 where
  latest : DisputeGameIndex
  number : ℕ → DisputeGameIndex
  finalized : DisputeGameIndex

pub record DisputeGame : Type 0 where
  pub index : ℕ
  pub l2_block_number : ℕ
  pub output_root_proof : OutputRootProof

abbrev pub dispute_game_fetch_count : ℕ
dispute_game_fetch_count = 20

-- the address of the message passer
abbrev pub message_passer_address : Bytes
message_passer_address =
    0x42 ∷ 0 ∷ 0 ∷ 0 ∷ 0 ∷ 0 ∷ 0 ∷ 0 ∷ 0 ∷ 0 ∷ 0 ∷ 0 ∷ 0 ∷ 0 ∷ 0 ∷ 0 ∷ 0 ∷ 0 ∷ 0 ∷ 0x16 ∷ []

module _ {HR RR H R : Type 0} (net : Network HR RR H R) (l2 : Provider HR RR) where
  unfoldable pub from_provider : ℕ → Outcome OutputRootProof
  from_provider block_number = do
    response ← context (l2.get_block (Rpc.number block_number)) "eth_getBlockByNumber failed"
    header ← or_err response "block not found"
    proof ← context (l2.get_proof message_passer_address [] (net.hash header)) "eth_getProof failed"
    ok (record {
      version = zero_hash;
      state_root = net.state_root header;
      message_passer_storage_root = proof.storage_hash;
      latest_blockhash = net.hash header;
    })

  -- `abi_decode` is none where the extra data is no u64
  module _ (c : Codec) (abi_encode : OutputRootProof → Bytes) (abi_decode : Bytes → Option ℕ)
      (portal : Portal) where
    -- the loop over the games: the first whose claim is the output root of its block
    unfoldable pub check_game : FoundGame → Option ℕ → Outcome DisputeGame → Outcome DisputeGame
    unfolding from_provider Game.hash
    check_game game none others = others
    check_game game (some l2_block_number) others = do
      proof ← context (from_provider l2_block_number) "failed to create OutputRootProof for game"
      if bytes_eq game.root_claim (Game.hash c abi_encode proof)
          then ok (record {
            index = game.index;
            l2_block_number = l2_block_number;
            output_root_proof = proof;
          })
          else others

    unfoldable pub first_valid : List FoundGame → Outcome DisputeGame
    unfolding check_game
    first_valid [] = err (message "no valid dispute games in range")
    first_valid (game ∷ games) =
        let others = first_valid games in check_game game (abi_decode game.extra_data) others

    -- the index to start from; the subtraction of a U256 wraps
    unfoldable pub start_index : Option ℕ → Outcome ℕ
    start_index (some index) = ok index
    start_index none = do count ← portal.game_count; ok ((count + (2 ^ 256 - 1)) % 2 ^ 256)

    unfoldable pub find_latest_game : ℕ → Option ℕ → Outcome DisputeGame
    unfolding first_valid start_index
    find_latest_game game_type start = do
      index ← start_index start
      games ← portal.find_latest_games game_type index dispute_game_fetch_count
      first_valid games

    -- the game of an index, and no earlier one
    unfoldable pub exact_game : ℕ → ℕ → Outcome DisputeGame
    unfolding find_latest_game
    exact_game game_type index = do
      game ← find_latest_game game_type (some index)
      guard (game.index == index) (message "invalid dispute game at index")
      ok game

    unfoldable pub dispute_game_of : ℕ → DisputeGameIndex → Outcome DisputeGame
    unfolding exact_game find_latest_game
    dispute_game_of game_type latest = find_latest_game game_type none
    dispute_game_of game_type finalized = do
      found ← context portal.find_finalized_index "findFinalizedIndex failed"
      index ← or_err found "no valid finalized game exists"
      exact_game game_type index
    dispute_game_of game_type (number index) = exact_game game_type index

    unfoldable pub dispute_game : DisputeGameIndex → Outcome DisputeGame
    unfolding dispute_game_of
    dispute_game index = do game_type ← portal.respected_game_type; dispute_game_of game_type index
