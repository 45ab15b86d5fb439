-- ===== src/Op/L1.antt =====
-- crates/op-steel/src/l1.rs: the block of the OP chain that saw the L1 block with a timestamp.
pub mod Search
use steel.Prelude.{
  ℕ, zero, suc, ◌+◌, ◌-◌, ◌*◌, ◌/◌, ◌^◌, ◌≤◌, ◌<◌, Bool, true, false, Option, none, some, List,
  ◌&&◌, not, ◌==◌, ltb, leb, if◌then◌else◌,
}
use steel.Outcome.{Outcome, ok, err, panic, out_of_fuel, assert, message, ◌>>=◌, ◌>>◌}
use steel.Beacon
use steel.Beacon.{BeaconCommit, BeaconBlockId, eip4788, slot}
use steel.Input
use steel.Input.{EvmInput, ComposeInput, into_parts}
use steel.Rpc.{or_err}

-- What the code asks of an OP node: the contract `L1Block` at a block, the number of the latest block,
-- and the timestamp of a block.
pub record L1Block : Type 0 where
  pub latest_block : Outcome ℕ
  pub latest_number : Outcome ℕ
  pub latest_timestamp : Outcome ℕ
  pub timestamp : ℕ → Outcome ℕ
  pub sequence_number : ℕ → Outcome ℕ
  pub block_timestamp : ℕ → Outcome (Option ℕ)

-- how a timestamp stands to the target
pub data Ordering : Type 0 where
  less equal greater : Ordering

unfoldable pub cmp : ℕ → ℕ → Ordering
cmp a b = if ltb a b then less else if a == b then equal else greater

-- a block that has been found, or the bounds of the search that is left
pub data Probe : Type 0 where
  found : ℕ → Probe
  bounds : ℕ → ℕ → Probe

-- `a + b`, `a - b`, `a / b` and `a * b` of a u64, in a build that checks for overflows
unfoldable pub add_u64 : ℕ → ℕ → Outcome ℕ
add_u64 a b = do assert (ltb (a + b) (2 ^ 64)) "attempt to add with overflow"; ok (a + b)

unfoldable pub sub_u64 : ℕ → ℕ → Outcome ℕ
sub_u64 a b = do assert (leb b a) "attempt to subtract with overflow"; ok (a - b)

unfoldable pub div_u64 : ℕ → ℕ → Outcome ℕ
div_u64 a b = do assert (not (b == 0)) "attempt to divide by zero"; ok (a / b)

unfoldable pub mul_u64 : ℕ → ℕ → Outcome ℕ
mul_u64 a b = do assert (ltb (a * b) (2 ^ 64)) "attempt to multiply with overflow"; ok (a * b)

module _ (l1 : L1Block) (target : ℕ) where
  unfoldable pub fetch_block_data : ℕ → Outcome (ℕ × ℕ)
  fetch_block_data b = do ts ← l1.timestamp b; sq ← l1.sequence_number b; ok (ts, sq)

  -- `block2 - (ts2 - target_ts) * (sq2 + 1) / (ts1 - ts2)`
  unfoldable pub estimate : ℕ → ℕ → ℕ → ℕ → Outcome ℕ
  unfolding add_u64 sub_u64 mul_u64 div_u64
  estimate block2 ts1 ts2 sq2 = do
    ahead ← sub_u64 ts2 target
    length ← add_u64 sq2 1
    product ← mul_u64 ahead length
    epoch ← sub_u64 ts1 ts2
    back ← div_u64 product epoch
    sub_u64 block2 back

  -- the end of one probe: below the target the search is bounded
  unfoldable pub judge : ℕ → ℕ → ℕ → Outcome Probe → Outcome Probe
  unfolding cmp add_u64
  judge b hi ts above = elim (cmp ts target) [
    | less ↦ (do lo ← add_u64 b 1; ok (bounds lo hi))
    | equal ↦ ok (found b)
    | greater ↦ above
  ]

  -- The initial probing, with fuel for its rounds.
  unfoldable pub probe : ℕ → ℕ → ℕ → Outcome Probe
  unfolding judge fetch_block_data estimate add_u64 sub_u64
  probe zero hi b = out_of_fuel
  probe (suc rounds) hi b =
      let rest = probe rounds in
      fetch_block_data b >>= λ (ts1, sq1). judge b hi ts1 (
        add_u64 sq1 1 >>= λ back. sub_u64 b back >>= λ block2.
        fetch_block_data block2 >>= λ (ts2, sq2).
        judge block2 b ts2 (estimate block2 ts1 ts2 sq2 >>= λ next. rest block2 next))

  -- the binary search, whose fuel bounds `hi - lo`
  unfoldable pub search : ℕ → ℕ → ℕ → Outcome (Option ℕ)
  unfolding cmp add_u64
  search zero lo hi = if ltb lo hi then out_of_fuel else ok none
  search (suc fuel) lo hi =
      let rest = search fuel in
      if ltb lo hi
      then (add_u64 lo hi >>= λ sum. l1.timestamp (sum / 2) >>= λ ts. elim (cmp ts target) [
        | less ↦ add_u64 (sum / 2) 1 >>= λ next. rest next hi
        | equal ↦ ok (some (sum / 2))
        | greater ↦ rest lo (sum / 2)
      ])
      else ok none

  unfoldable pub search_bounds : Probe → Outcome (Option ℕ)
  unfolding search
  search_bounds (found b) = ok (some b)
  search_bounds (bounds lo hi) = search (hi - lo) lo hi

  unfoldable pub find_l2_block_at_timestamp : ℕ → Outcome (Option ℕ)
  unfolding probe search_bounds add_u64
  find_l2_block_at_timestamp rounds = do
    latest ← l1.latest_block
    hi ← add_u64 latest 1
    outcome ← probe rounds hi latest
    search_bounds outcome

module _ (l1 : L1Block) where
  unfoldable pub latest_block_number : Outcome ℕ
  latest_block_number = l1.latest_number

  -- the identifier must be an EIP-4788 timestamp
  unfoldable pub into_op_id : ℕ → BeaconBlockId → Outcome BeaconBlockId
  unfolding find_l2_block_at_timestamp
  into_op_id rounds (slot s) = panic "only BeaconBlockId::Eip4788 is supported"
  into_op_id rounds (eip4788 ts) = do
    latest ← l1.latest_timestamp
    elim (ltb latest ts) [
      | true ↦ err (message "L1 block not yet propagated")
      | false ↦ (do
        number ← find_l2_block_at_timestamp l1 ts rounds
        block_number ← or_err number "no block found for L1 timestamp"
        response ← l1.block_timestamp block_number
        op_ts ← or_err response "L1 block not yet propagated"
        ok (eip4788 op_ts))
    ]

  unfoldable pub into_beacon_input : {H R : Type 0} → ℕ → ℕ → EvmInput H R → Outcome (EvmInput H R)
  unfolding into_op_id into_parts Beacon.new Input.new
  into_beacon_input leaf_index rounds (Input.beacon self) = do
    let (input, commit) = into_parts self
    id ← into_op_id rounds commit.block_id
    commit' ← Beacon.new leaf_index commit.proof id
    ok (Input.beacon (Input.new input commit'))
  into_beacon_input leaf_index rounds (Input.block input) =
      panic "only EthEvmInput::Beacon is supported"
  into_beacon_input leaf_index rounds (Input.history self) =
      panic "only EthEvmInput::Beacon is supported"
  into_beacon_input leaf_index rounds (Input.eip_history self) =
      panic "only EthEvmInput::Beacon is supported"
