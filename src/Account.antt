-- ===== src/Account.antt =====
-- crates/steel/src/account.rs: the query of an account in the guest.
use steel.Prelude.{
  ℕ, Bytes, B256, Address, Bool, true, false, Option, none, some, ◌&&◌, ◌==◌, bytes_eq,
}
use steel.Outcome.{Outcome, ok, ◌>>=◌}
use steel.Platform.{Platform, StateAccount}
use steel.State
use steel.State.{StateDb, or_default}

pub record AccountInfo : Type 0 where
  pub nonce : ℕ
  pub balance : ℕ
  pub storage_root : B256
  pub code_hash : B256
  pub code : Option Bytes

-- `PartialEq`: the code is not compared
unfoldable pub eq : AccountInfo → AccountInfo → Bool
eq a b =
    a.nonce == b.nonce
    && a.balance == b.balance
    && bytes_eq a.storage_root b.storage_root
    && bytes_eq a.code_hash b.code_hash

unfoldable pub from : StateAccount → AccountInfo
from account = record {
  nonce = account.nonce;
  balance = account.balance;
  storage_root = account.storage_root;
  code_hash = account.code_hash;
  code = none;
}

-- `Account<E>` without its environment, which the query is given
pub record Account : Type 0 where
  pub address : Address
  pub code : Bool

unfoldable pub new : Address → Account
new address = record { address = address; code = false }

unfoldable pub bytecode : Account → Bool → Account
bytecode self code = record self { code = code }

unfoldable pub is_none : {A : Type 0} → Option A → Bool
is_none none = true
is_none (some a) = false

module _ (p : Platform) where
  unfoldable pub with_code : Bool → StateDb → AccountInfo → Outcome AccountInfo
  with_code true db info = do
    code ← State.code_by_hash db info.code_hash
    ok (record info { code = some code })
  with_code false db info = ok info

  unfoldable pub try_info : Account → StateDb → Outcome AccountInfo
  unfolding with_code from is_none
  try_info self db = do
    found ← State.account p db self.address
    let info = from (or_default p.default_account found)
    with_code (self.code && is_none info.code) db info
