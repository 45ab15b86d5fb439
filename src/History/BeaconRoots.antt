-- ===== src/History/BeaconRoots.antt =====
-- crates/steel/src/history/beacon_roots.rs: the EIP-4788 contract.
use steel.Prelude.{ℕ, ◌+◌, ◌%◌, B256, Address, [], ◌∷◌, ◌==◌, not}
use steel.Outcome.{Outcome, ok, guard, reverted, ◌>>=◌, ◌>>◌}
use steel.Words.{to_be_bytes}
use steel.Platform.{Platform}
use steel.History.Contract
use steel.History.Contract.{SingleContractState, check_code}

abbrev pub address : Address
address =
    0 ∷ 15 ∷ 61 ∷ 246 ∷ 215 ∷ 50 ∷ 128 ∷ 126 ∷ 241 ∷ 49 ∷ 159 ∷ 183 ∷ 184 ∷ 187 ∷ 133 ∷ 34 ∷ 208
    ∷ 190 ∷ 172 ∷ 2 ∷ []

abbrev pub history_buffer_length : ℕ
history_buffer_length = 8191

abbrev pub code_hash : B256
code_hash =
    245 ∷ 122 ∷ 205 ∷ 64 ∷ 37 ∷ 152 ∷ 114 ∷ 96 ∷ 109 ∷ 118 ∷ 25 ∷ 126 ∷ 240 ∷ 82 ∷ 243 ∷ 211 ∷ 85
    ∷ 136 ∷ 218 ∷ 223 ∷ 145 ∷ 158 ∷ 225 ∷ 240 ∷ 227 ∷ 203 ∷ 155 ∷ 98 ∷ 211 ∷ 244 ∷ 176 ∷ 44 ∷ []

module _ (p : Platform) where
  -- The contract is its state, which has passed this check.
  unfoldable pub new : SingleContractState → Outcome SingleContractState
  unfolding check_code
  new db = do check_code p db address code_hash; ok db

  unfoldable pub get : SingleContractState → ℕ → Outcome B256
  unfolding Contract.storage to_be_bytes
  get db timestamp = do
    guard (not (timestamp == 0)) (reverted "timestamp is zero")
    let timestamp_idx = timestamp % history_buffer_length
    stored ← Contract.storage p db address timestamp_idx
    guard (stored == timestamp) (reverted "timestamp too old")
    root ← Contract.storage p db address (timestamp_idx + history_buffer_length)
    ok (to_be_bytes 32 root)
