-- ===== src/Rpc.antt =====
-- What the host calls of an Ethereum node through alloy (`Provider`, `Network`), as parameters. A
-- request ends with the node's answer, or with the error of the transport.
use steel.Prelude.{ℕ, Bytes, B256, Address, List, Option}
use steel.Outcome.{Outcome, ok, err, panic, out_of_fuel, message}
use steel.Platform.{Filter, Log}
use Prim.Native.String.{String}

-- `EIP1186StorageProof`
pub record StorageProofResponse : Type 0 where
  pub key : B256
  pub value : ℕ
  pub proof : List Bytes

-- `EIP1186AccountProofResponse`
pub record ProofResponse : Type 0 where
  pub address : Address
  pub balance : ℕ
  pub code_hash : B256
  pub nonce : ℕ
  pub storage_hash : B256
  pub account_proof : List Bytes
  pub storage_proof : List StorageProofResponse

-- alloy's `BlockId` and `BlockNumberOrTag`, as far as the host sets them
pub data RpcBlockId : Type 0 where
  hash : B256 → RpcBlockId
  number : ℕ → RpcBlockId
  latest safe finalized : RpcBlockId

-- `HeaderResponse` and `ReceiptResponse`, with their conversions to the types of the EVM
pub record Network (HR RR H R : Type 0) : Type 0 where
  pub hash : HR → B256
  pub state_root : HR → B256
  pub logs_bloom : HR → Bytes
  pub try_header : HR → Outcome H
  pub try_receipt : RR → Outcome R

pub record Provider (HR RR : Type 0) : Type 0 where
  pub get_chain_id : Outcome ℕ
  pub get_block_number : Outcome ℕ
  pub get_transaction_count : Address → B256 → Outcome ℕ
  pub get_balance : Address → B256 → Outcome ℕ
  pub get_code_at : Address → B256 → Outcome Bytes
  pub get_storage_at : Address → ℕ → B256 → Outcome ℕ
  pub get_proof : Address → List B256 → B256 → Outcome ProofResponse
  -- a block, by its header
  pub get_block : RpcBlockId → Outcome (Option HR)
  pub get_block_receipts : B256 → Outcome (Option (List RR))
  pub get_logs : Filter → Outcome (List Log)

-- `context` and `map_err`
abbrev pub context : {A : Type 0} → Outcome A → String → Outcome A
context (ok a) s = ok a
context (err e) s = err (message s)
context (panic m) s = panic m
context out_of_fuel s = out_of_fuel

-- `Option::with_context`
abbrev pub or_err : {A : Type 0} → Option A → String → Outcome A
or_err Option.none s = err (message s)
or_err (Option.some a) s = ok a
