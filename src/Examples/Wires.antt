-- ===== src/Examples/Wires.antt =====
-- Examples of the theorems on serialization, on the known chains and on dispute games.
use steel.Prelude.{ℕ, ◌≡◌, refl, Bytes, true, some, [], ◌∷◌, ◌++◌, length, bytes_eq}
use steel.Outcome.{ok}
use steel.Header.{Sealed}
use steel.Commitment
use steel.Commitment.{Commitment, decode_id}
use steel.Mpt.Toy.{toy, zeros}
use steel.Serde.{
  Hex, Rlp, RlpHeader, new, hash_slow, serialize, deserialize, Envelope, Eip2718Wrapper,
}
use steel.Serde.RoundTrip.{deserialize-serialize}
use steel.Ethereum.{Hardforks, from_chain_id, eth_mainnet}
use steel.Game
use steel.Game.{OutputRootProof, DisputeGameCommit, hash}

-- a format whose text is the bytes
abbrev hex : Hex
hex = record { encode = λ bytes. bytes; decode = λ text. ok text }

abbrev header_rlp : Rlp Bytes
header_rlp = record { encode = λ h. h; decode_exact = λ bytes. ok bytes }

deserialize-serialize_example :
    (result : RlpHeader Bytes) × (deserialize hex header_rlp
        (serialize hex header_rlp true (new (1 ∷ [])))
      ≡ ok result)
    × (result.inner ≡ (new (1 ∷ [])).inner)
    × (hash_slow toy header_rlp result ≡ hash_slow toy header_rlp (new (new (1 ∷ [])).inner))
deserialize-serialize_example =
    deserialize-serialize hex (λ bytes. refl) toy header_rlp true (new (1 ∷ [])) refl

abbrev envelope : Envelope Bytes
envelope = record {
  encoded_2718 = λ t. t;
  encode_2718_len = length;
  decode_2718 = λ bytes. ok (bytes, []);
}

abbrev receipt : Eip2718Wrapper Bytes
receipt = record { inner = 2 ∷ 7 ∷ []; encoding = some (2 ∷ 7 ∷ []) }

abbrev forks : Hardforks ℕ
forks = record {
  rank = λ s. s;
  as_u32 = λ s. s;
  merge = 15;
  shanghai = 16;
  cancun = 17;
  prague = 18;
  osaka = 19;
}

mainnet_found : from_chain_id forks 1 ≡ some (eth_mainnet forks)
unfolding from_chain_id
mainnet_found = refl

abbrev output_root : OutputRootProof
output_root = record {
  version = zeros;
  state_root = zeros;
  message_passer_storage_root = zeros;
  latest_blockhash = 5 ∷ zeros;
}

abbrev game : DisputeGameCommit
game = record { game_index = 12; proof = output_root }

abbrev abi_encode : OutputRootProof → Bytes
abi_encode r = r.version ++ (r.state_root ++ (r.message_passer_storage_root ++ r.latest_blockhash))

abbrev game_block : Sealed ℕ
game_block = record { inner = 5; seal = 5 ∷ zeros }

abbrev game_commitment : Commitment
game_commitment = Commitment.new 0x100 12 (hash toy abi_encode output_root) zeros

game-commit : Game.commit toy abi_encode game game_block zeros ≡ ok game_commitment
unfolding Game.commit bytes_eq
game-commit = refl
