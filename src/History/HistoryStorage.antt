-- ===== src/History/HistoryStorage.antt =====
-- crates/steel/src/history/eip2935/history_storage.rs: the EIP-2935 contract.
use steel.Prelude.{ℕ, ◌%◌, B256, Address, [], ◌∷◌}
use steel.Outcome.{Outcome, ok, ◌>>=◌, ◌>>◌}
use steel.Words.{to_be_bytes}
use steel.Platform.{Platform}
use steel.History.Contract
use steel.History.Contract.{SingleContractState, check_code}

abbrev pub address : Address
address =
    0 ∷ 0 ∷ 249 ∷ 8 ∷ 39 ∷ 241 ∷ 197 ∷ 58 ∷ 16 ∷ 203 ∷ 122 ∷ 2 ∷ 51 ∷ 91 ∷ 23 ∷ 83 ∷ 32 ∷ 0 ∷ 41
    ∷ 53 ∷ []

abbrev pub history_serve_window : ℕ
history_serve_window = 8191

abbrev pub code_hash : B256
code_hash =
    110 ∷ 73 ∷ 230 ∷ 103 ∷ 130 ∷ 3 ∷ 124 ∷ 5 ∷ 85 ∷ 137 ∷ 120 ∷ 112 ∷ 226 ∷ 159 ∷ 165 ∷ 229 ∷ 82
    ∷ 218 ∷ 244 ∷ 113 ∷ 149 ∷ 82 ∷ 19 ∷ 26 ∷ 10 ∷ 188 ∷ 231 ∷ 121 ∷ 218 ∷ 236 ∷ 10 ∷ 93 ∷ []

module _ (p : Platform) where
  unfoldable pub new : SingleContractState → Outcome SingleContractState
  unfolding check_code
  new db = do check_code p db address code_hash; ok db

  unfoldable pub get_unchecked : SingleContractState → ℕ → Outcome B256
  unfolding Contract.storage to_be_bytes
  get_unchecked db block_number = do
    hash ← Contract.storage p db address (block_number % history_serve_window)
    ok (to_be_bytes 32 hash)
