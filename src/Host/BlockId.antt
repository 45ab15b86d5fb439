-- ===== src/Host/BlockId.antt =====
-- crates/steel/src/host/mod.rs, `BlockId` and `BlockNumberOrTag`: which block is asked for, and how
-- it is written.
pub mod RoundTrip
use steel.Prelude.{
  ℕ, zero, suc, ◌+◌, ◌-◌, ◌*◌, ◌/◌, ◌%◌, ◌^◌, Bytes, B256, Bool, Option, none, some, List, [], ◌∷◌,
  ◌&&◌, ltb, leb, ◌==◌, if◌then◌else◌, bytes_eq,
}
use steel.Outcome.{Outcome, ok, err, guard, message, ◌>>=◌, ◌>>◌}
use steel.Rpc
use steel.Rpc.{Provider, RpcBlockId}

pub data BlockNumberOrTag : Type 0 where
  latest parent safe finalized : BlockNumberOrTag
  number : ℕ → BlockNumberOrTag

pub data BlockId : Type 0 where
  by_hash : B256 → BlockId
  by_number : BlockNumberOrTag → BlockId

-- `BlockId::default()`
abbrev pub default : BlockId
default = by_number latest

unfoldable pub into_rpc_type : {HR RR : Type 0} → Provider HR RR → BlockId → Outcome RpcBlockId
into_rpc_type provider (by_hash hash) = ok (Rpc.hash hash)
into_rpc_type provider (by_number latest) = ok Rpc.latest
into_rpc_type provider (by_number parent) = do
  newest ← provider.get_block_number
  guard (ltb 0 newest) (message "genesis does not have a parent")
  ok (Rpc.number (newest - 1))
into_rpc_type provider (by_number safe) = ok Rpc.safe
into_rpc_type provider (by_number finalized) = ok Rpc.finalized
into_rpc_type provider (by_number (number n)) = ok (Rpc.number n)

-- the texts of the tags, as bytes
abbrev pub latest_text : Bytes
latest_text = b'l' ∷ b'a' ∷ b't' ∷ b'e' ∷ b's' ∷ b't' ∷ []

abbrev pub parent_text : Bytes
parent_text = b'p' ∷ b'a' ∷ b'r' ∷ b'e' ∷ b'n' ∷ b't' ∷ []

abbrev pub safe_text : Bytes
safe_text = b's' ∷ b'a' ∷ b'f' ∷ b'e' ∷ []

abbrev pub finalized_text : Bytes
finalized_text = b'f' ∷ b'i' ∷ b'n' ∷ b'a' ∷ b'l' ∷ b'i' ∷ b'z' ∷ b'e' ∷ b'd' ∷ []

-- a digit of `{x:x}`, and the digits of a number before those of `rest`; there are fewer of them
-- than the fuel
unfoldable pub digit : ℕ → ℕ
digit d = if ltb d 10 then 48 + d else 87 + d

unfoldable pub hex_digits : ℕ → ℕ → Bytes → Bytes
unfolding digit
hex_digits zero n rest = rest
hex_digits (suc fuel) n rest =
    let more = hex_digits fuel (n / 16) (digit (n % 16) ∷ rest) in
    if n / 16 == 0 then digit (n % 16) ∷ rest else more

-- `Display::fmt`
unfoldable pub fmt : BlockNumberOrTag → Bytes
unfolding hex_digits
fmt (number x) = b'0' ∷ b'x' ∷ hex_digits (suc x) x []
fmt latest = latest_text
fmt parent = parent_text
fmt safe = safe_text
fmt finalized = finalized_text

-- `u64::from_str_radix(_, 16)`, which allows a sign `+` and both cases
unfoldable pub hex_value : ℕ → Outcome ℕ
hex_value c =
    if leb 48 c && leb c 57
    then ok (c - 48)
    else if leb 97 c && leb c 102
    then ok (c - 87)
    else if leb 65 c && leb c 70
    then ok (c - 55)
    else err (message "invalid digit found in string")

unfoldable pub hex_number : ℕ → Bytes → Outcome ℕ
unfolding hex_value
hex_number acc [] = ok acc
hex_number acc (c ∷ cs) = do
  d ← hex_value c
  guard (ltb (acc * 16 + d) (2 ^ 64)) (message "number too large to fit in target type")
  hex_number (acc * 16 + d) cs

unfoldable pub some_digits : Bytes → Outcome ℕ
unfolding hex_number
some_digits [] = err (message "invalid digit found in string")
some_digits (c ∷ cs) = hex_number 0 (c ∷ cs)

unfoldable pub from_str_radix : Bytes → Outcome ℕ
unfolding some_digits
from_str_radix [] = err (message "cannot parse integer from empty string")
from_str_radix (c ∷ cs) = if c == b'+' then some_digits cs else some_digits (c ∷ cs)

-- `strip_prefix("0x")`
unfoldable pub strip_prefix : Bytes → Option Bytes
strip_prefix [] = none
strip_prefix (a ∷ []) = none
strip_prefix (a ∷ b ∷ s) = if a == b'0' && b == b'x' then some s else none

unfoldable pub parse_number : Option Bytes → Outcome BlockNumberOrTag
unfolding from_str_radix
parse_number none = err (message "hex string without 0x prefix")
parse_number (some s) = do n ← from_str_radix s; ok (number n)

-- `FromStr::from_str`
unfoldable pub from_str : Bytes → Outcome BlockNumberOrTag
unfolding parse_number strip_prefix bytes_eq
from_str s =
    if bytes_eq s latest_text
    then ok latest
    else if bytes_eq s parent_text
    then ok parent
    else if bytes_eq s safe_text
    then ok safe
    else if bytes_eq s finalized_text
    then ok finalized
    else parse_number (strip_prefix s)
