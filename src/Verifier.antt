-- ===== src/Verifier.antt =====
-- crates/steel/src/verifier.rs and precompiles.rs: the check of a commitment against the environment.
pub mod Window
pub mod Sound
use steel.Prelude.{
  ℕ, ◌-◌, ◌^◌, Bytes, B256, Address, Bool, Option, none, some, ltb, leb, ◌&&◌, bytes_eq,
  if◌then◌else◌,
}
use steel.Outcome.{Outcome, ok, panic, expect, assert, guard, message, ◌>>=◌, ◌>>◌}
use steel.Header.{EvmBlockHeader, EvmSpecId}
use steel.Commitment.{CommitmentVersion, block, beacon, consensus, n, Commitment, decode_id}
use steel.State.{StateDb, block_hash}
use steel.Env.{EvmEnv}

-- What the contract wrappers use: the run of the EVM for a call of an address, `abi_encode` of a U256,
-- `abi_decode_validate` of a B256, and the addresses that alloy gives the contracts.
pub record Evm : Type 0 where
  pub try_call : Address → Bytes → Outcome Bytes
  pub abi_encode : ℕ → Bytes
  pub abi_decode_validate : Bytes → Outcome B256
  pub beacon_roots_address : Address
  pub history_storage_address : Address

module _ (evm : Evm) where
  -- `BeaconRootsContract::call`
  unfoldable pub beacon_roots_call : ℕ → Outcome B256
  beacon_roots_call timestamp = do
    resp ←
        expect (evm.try_call evm.beacon_roots_address (evm.abi_encode timestamp))
          "Executing beacon roots contract failed"
    expect (evm.abi_decode_validate resp) "Failed to decode return data, expected type 'Bytes32'"

  -- `HistoryStorageContract::call`
  unfoldable pub history_storage_call : ℕ → Outcome B256
  history_storage_call block_number = do
    resp ←
        expect (evm.try_call evm.history_storage_address (evm.abi_encode block_number))
          "Executing history storage contract failed"
    expect (evm.abi_decode_validate resp) "Failed to decode return data, expected type 'Bytes32'"

-- `saturating_to` a u64
abbrev pub saturating_to : ℕ → ℕ
saturating_to x = if leb (2 ^ 64) x then 2 ^ 64 - 1 else x

unfoldable pub validate_history_window : {H : Type 0} → EvmBlockHeader H → H → ℕ → ℕ → Outcome ℕ
validate_history_window ops header block_number windows = do
  let number = saturating_to block_number
  guard (ltb number (ops.number header) && leb (ops.number header - number) windows)
      (message "only valid for the most recent blocks, excluding the current one")
  ok number

module _ {H S : Type 0} (evm : Evm) (ops : EvmBlockHeader H) (ids : EvmSpecId S) where
  -- the block hash that the environment has for a block number
  unfoldable pub known_block_hash : EvmEnv StateDb S H Commitment → ℕ → Outcome B256
  unfolding history_storage_call validate_history_window block_hash
  known_block_hash env id = if ids.has_eip2935 env.spec_id then history_storage_call evm id else do
    block_number ←
        expect (validate_history_window ops env.header.inner id 256) "Invalid block number"
    block_hash env.db block_number

  unfoldable pub check_version :
      EvmEnv StateDb S H Commitment → Commitment → ℕ → Option CommitmentVersion → Outcome (Unit {0})
  unfolding known_block_hash beacon_roots_call
  check_version env commitment id (some block) = do
    hash ← known_block_hash env id
    assert (bytes_eq hash commitment.digest) "Invalid block hash"
  check_version env commitment id (some beacon) = do
    assert (ids.has_eip4788 env.spec_id) "EIP-4788 required"
    beacon_root ← beacon_roots_call evm id
    assert (bytes_eq beacon_root commitment.digest) "Invalid beacon root"
  check_version env commitment id (some consensus) = panic "not implemented: Unsupported version"
  check_version env commitment id none = panic "not implemented: Unsupported version"

  unfoldable pub verify_with_config_id :
      EvmEnv StateDb S H Commitment → Commitment → B256 → Outcome (Unit {0})
  unfolding check_version decode_id n
  verify_with_config_id env commitment config_id = do
    assert (bytes_eq commitment.config_id config_id) "Invalid config ID"
    let (id, version_code) = decode_id commitment
    check_version env commitment id (n version_code)

  unfoldable pub verify : EvmEnv StateDb S H Commitment → Commitment → Outcome (Unit {0})
  unfolding verify_with_config_id
  verify env commitment = verify_with_config_id env commitment env.commit.config_id
