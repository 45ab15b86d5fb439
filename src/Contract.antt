-- ===== src/Contract.antt =====
-- crates/steel/src/contract.rs: calls of contracts, with the run of revm as a parameter.
pub mod Preflight
pub mod Runs
pub mod EndToEnd
pub mod Replay
use steel.Prelude.{
  ℕ, Bytes, B256, Address, Bool, false, Option, none, some, List, [], ◌∷◌, ◌&&◌, not, if◌then◌else◌,
}
use steel.Outcome.{Outcome, ok, err, panic, out_of_fuel, Error, ◌>>=◌}
use steel.Header.{EvmBlockHeader}
use steel.Platform.{Platform, AccountInfo}
use steel.State
use steel.State.{WrapStateDb, wrap, StateDb}
use steel.Env.{EvmEnv}
use steel.Commitment.{Commitment}
use steel.Host.Database.{Database, Query, Answer, ask}

-- A transaction in the hands of revm: what it asks of the database, one query after the other, until
-- it has a result or fails by itself.
pub data Run (R : Type 0) : Type 0 where
  done : R → Run R
  fails : Error → Run R
  asks : Query → (Answer → Run R) → Run R

-- revm's `ExecutionResult`, with whether the success is a `SuccessReason::Stop`
pub data ExecutionResult (Halt : Type 0) : Type 0 where
  success : Bool → Bytes → ExecutionResult Halt
  revert : Bytes → ExecutionResult Halt
  halt : Halt → ExecutionResult Halt

-- `EvmFactory`: `new_tx`, and `create_evm` with its `transact_raw`
pub record EvmFactory (Tx S H Halt : Type 0) : Type 0 where
  pub new_tx : Address → Bytes → Tx
  pub transact : ℕ → S → H → Tx → Run (ExecutionResult Halt)

-- alloy's `SolCall`; `returns_nothing` is that `ReturnTuple::ENCODED_SIZE` is `Some(0)`
pub record SolCall (A : Type 0) : Type 0 where
  pub abi_encode : Bytes
  pub returns_nothing : Bool
  pub abi_decode_returns : Bytes → Option A

-- `RawCall`, whose data is the call and whose return is the data
unfoldable pub raw_call : Bytes → SolCall Bytes
raw_call data_bytes = record {
  abi_encode = data_bytes;
  returns_nothing = false;
  abi_decode_returns = λ output. some output;
}

pub data CallError (Halt : Type 0) : Type 0 where
  evm_error : Error → CallError Halt
  halted : Halt → CallError Halt
  reverted : Bytes → CallError Halt
  no_return abi_error : CallError Halt

-- `Result<S::Return, CallError>`
pub data CallResult (A Halt : Type 0) : Type 0 where
  value : A → CallResult A Halt
  failed : CallError Halt → CallResult A Halt

unfoldable pub as_revert_data : {Halt : Type 0} → CallError Halt → Option Bytes
as_revert_data (reverted output) = some output
as_revert_data (evm_error e) = none
as_revert_data (halted reason) = none
as_revert_data no_return = none
as_revert_data abi_error = none

-- `CallBuilder`, without its environment
pub record CallBuilder (Tx A : Type 0) : Type 0 where
  pub tx : Tx
  pub sol : SolCall A

-- `Contract::call_builder`, and `Contract::raw` with the raw call
unfoldable pub call_builder :
    {Tx S H Halt A : Type 0} → EvmFactory Tx S H Halt → Address → SolCall A → CallBuilder Tx A
call_builder evm address sol = record { tx = evm.new_tx address sol.abi_encode; sol = sol }

unfoldable pub raw :
    {Tx S H Halt : Type 0} → EvmFactory Tx S H Halt → Address → Bytes → CallBuilder Tx Bytes
unfolding raw_call
raw evm address data_bytes = record {
  tx = evm.new_tx address data_bytes;
  sol = raw_call data_bytes;
}

-- A run on a database; an error of the database ends it.
unfoldable pub drive : {D R : Type 0} → Database D → D → Run R → Outcome (R × D)
unfolding ask
drive ops d (done r) = ok (r, d)
drive ops d (fails e) = err e
drive ops d (asks q next) = ask ops d q >>= λ (a, d'). drive ops d' (next a)

module _ {A Halt : Type 0} where
  -- `abi_decode_returns` of the output
  unfoldable pub decode_returns : Option A → CallResult A Halt
  decode_returns none = failed abi_error
  decode_returns (some a) = value a

  -- what is made of the result of a transaction
  unfoldable pub settle : SolCall A → ExecutionResult Halt → CallResult A Halt
  unfolding decode_returns
  settle sol (success stop output) =
      if not sol.returns_nothing && stop
      then failed no_return
      else decode_returns (sol.abi_decode_returns output)
  settle sol (revert output) = failed (reverted output)
  settle sol (halt reason) = failed (halted reason)

  -- `call`; the error of a run is the `EvmError`
  unfoldable pub call :
      {D : Type 0}
      → Database D
      → D
      → SolCall A
      → Run (ExecutionResult Halt)
      → Outcome (CallResult A Halt × D)
  unfolding drive settle
  call ops d sol run = do (result, d') ← drive ops d run; ok (settle sol result, d')

  abbrev pub caught : {D : Type 0} → Outcome (CallResult A Halt × D) → Outcome (CallResult A Halt)
  caught (ok (result, d)) = ok result
  caught (err e) = ok (failed (evm_error e))
  caught (panic m) = panic m
  caught out_of_fuel = out_of_fuel

  abbrev pub returned : CallResult A Halt → Outcome A
  returned (value a) = ok a
  returned (failed e) = panic "Executing call failed"

-- `WrapStateDb` as the database of a run
abbrev pub guest_db : {H : Type 0} → Platform → EvmBlockHeader H → Database (WrapStateDb H)
guest_db p ops = record {
  basic = State.basic p;
  code_by_hash = λ db hash. (do code ← State.code_by_hash db.inner hash; ok (code, db));
  storage = λ db address index. (do v ← State.storage p db address index; ok (v, db));
  block_hash = λ db number. (do hash ← State.block_hash db.inner number; ok (hash, db));
  logs = λ db filter. (do found ← State.logs p ops db filter; ok (found, db));
}

module _ (p : Platform) {Tx S H Halt A : Type 0} (ops : EvmBlockHeader H)
    (evm : EvmFactory Tx S H Halt) where
  -- `CallBuilder::try_call` of the guest
  unfoldable pub try_call :
      EvmEnv StateDb S H Commitment → CallBuilder Tx A → Outcome (CallResult A Halt)
  unfolding wrap call State.basic State.code_by_hash State.storage State.block_hash State.logs
  try_call env self = caught (
      call (guest_db p ops) (wrap env.db env.header) self.sol
        (evm.transact env.chain_id env.spec_id env.header.inner self.tx))

  -- `CallBuilder::call` of the guest
  unfoldable pub guest_call : EvmEnv StateDb S H Commitment → CallBuilder Tx A → Outcome A
  unfolding try_call
  guest_call env self = try_call env self >>= returned
