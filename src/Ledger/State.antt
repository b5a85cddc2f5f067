-- ===== src/Ledger/State.antt =====
-- The data of ib_trader/engine/order_ledger.py: fills, entries, events and the ledger itself.
-- Quantities, prices and commissions are Decimals, each a whole number of its unit; the average price
-- is the one quotient, kept as numerator and denominator. Times are whole clock ticks.
use ib_trader.Prelude.{
  ℕ, String, Bool, true, false, Option, none, some, List, [], ◌∷◌, ◌++◌, ◌||◌, ◌≡◌, if◌then◌else◌,
}
use ib_trader.Prelude.Int.{ℤ, pos, ◌+ℤ◌, ◌*ℤ◌, eqb_ℤ, int_laws}
use ib_trader.Prelude.Text.{str_eq}
use ib_trader.Prelude.Dict.{Dict}

-- The status texts of IB that the code names; `other` is any further text.
pub data Status : Type 0 where
  pending_submit pre_submitted submitted filled cancelled inactive api_cancelled : Status
  other : String → Status

-- "BUY", "SELL", or any other text, the empty default included.
pub data Side : Type 0 where
  buy sell unknown : Side

-- `_TERMINAL_STATUSES`
abbrev pub is_terminal_status : Status → Bool
is_terminal_status Status.filled = true
is_terminal_status Status.cancelled = true
is_terminal_status Status.inactive = true
is_terminal_status Status.api_cancelled = true
is_terminal_status _ = false

-- `_PREROUTE_PREV_STATUSES`
abbrev pub is_preroute_prev : Status → Bool
is_preroute_prev Status.pre_submitted = true
is_preroute_prev Status.submitted = true
is_preroute_prev Status.pending_submit = true
is_preroute_prev _ = false

-- `status in ("Cancelled", "ApiCancelled")`
abbrev pub is_cancel : Status → Bool
is_cancel Status.cancelled = true
is_cancel Status.api_cancelled = true
is_cancel _ = false

-- `status in ("Inactive",)`
abbrev pub is_inactive : Status → Bool
is_inactive Status.inactive = true
is_inactive _ = false

-- `_PHANTOM_IB_ORDER_IDS`
unfoldable pub is_phantom : String → Bool
is_phantom ib_order_id = str_eq ib_order_id "" || str_eq ib_order_id "0"

pub record Fill : Type 0 where
  pub qty : ℤ
  pub price : ℤ
  pub commission : ℤ
  pub exec_id : String

-- What every call says of the order besides its id.
pub record Tags : Type 0 where
  pub order_ref : String
  pub symbol : String
  pub sec_type : String
  pub con_id : ℕ
  pub side : Side

pub record LedgerEntry : Type 0 where
  pub ib_order_id : String
  pub tags : Tags
  pub target_qty : ℤ
  pub fills : List Fill
  pub last_status : Status
  pub created_at : ℕ
  pub stuck_alerted : Bool
  pub pre_position : Option ℤ

abbrev pub sum_qty : List Fill → ℤ
sum_qty [] = pos 0
sum_qty (f ∷ fs) = f.qty +ℤ sum_qty fs

abbrev pub sum_notional : List Fill → ℤ
sum_notional [] = pos 0
sum_notional (f ∷ fs) = f.qty *ℤ f.price +ℤ sum_notional fs

abbrev pub sum_commission : List Fill → ℤ
sum_commission [] = pos 0
sum_commission (f ∷ fs) = f.commission +ℤ sum_commission fs

abbrev pub filled_qty : LedgerEntry → ℤ
filled_qty entry = sum_qty entry.fills

pub record Ratio : Type 0 where
  pub num : ℤ
  pub den : ℤ

unfoldable pub avg_price : LedgerEntry → Option Ratio
avg_price entry =
    if eqb_ℤ (filled_qty entry) (pos 0)
    then none
    else some (record { num = sum_notional entry.fills; den = filled_qty entry })

abbrev pub total_commission : LedgerEntry → ℤ
total_commission entry = sum_commission entry.fills

-- The `status` of a published event: a status of IB, or one of the ledger's own.
pub data EventStatus : Type 0 where
  ib : Status → EventStatus
  partially_filled cancel_held rejected partial_fill_cancelled : EventStatus

pub record Event : Type 0 where
  pub ib_order_id : String
  pub tags : Tags
  pub terminal : Bool
  pub status : EventStatus
  pub target_qty : ℤ
  pub filled_qty : ℤ
  pub avg_price : Option Ratio
  pub total_commission : ℤ
  pub last_fill_qty : Option ℤ
  pub last_fill_price : Option ℤ
  pub ts : ℕ

-- `_make_event`, at the wall time `ts`
unfoldable pub make_event : LedgerEntry → Bool → EventStatus → Option ℤ → Option ℤ → ℕ → Event
make_event entry terminal status last_fill_qty last_fill_price ts = record {
  ib_order_id = entry.ib_order_id;
  tags = entry.tags;
  terminal = terminal;
  status = status;
  target_qty = entry.target_qty;
  filled_qty = filled_qty entry;
  avg_price = avg_price entry;
  total_commission = total_commission entry;
  last_fill_qty = last_fill_qty;
  last_fill_price = last_fill_price;
  ts = ts;
}

-- `OrderLedger`, less its `_position_getter`, which each call that asks it takes as an argument
pub record Ledger : Type 0 where
  pub entries : Dict LedgerEntry
  pub recently_evicted : List String

-- The answer of `position_getter(symbol, sec_type)`; `none` is an exception.
abbrev pub PositionGetter : Type 0
PositionGetter = String → String → Option ℤ

-- `time.monotonic()` and the time of `_now_iso()` at a call.
pub record Now : Type 0 where
  pub mono : ℕ
  pub wall : ℕ

pub sum_qty-append : (fs gs : List Fill) → sum_qty (fs ++ gs) ≡ sum_qty fs +ℤ sum_qty gs
sum_qty-append [] gs = omega int_laws
sum_qty-append (f ∷ fs) gs = rw (sum_qty-append fs gs) (omega int_laws)
