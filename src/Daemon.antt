-- ===== src/Daemon.antt =====
-- The reconciliation of ib_trader/daemon/reconciler.py, on the log of Transactions and the trades of
-- Transactions/Recovery. What the broker answers is a parameter: the ids of the orders that it shows open, and the
-- status of another order, `none` where the call raises. The texts of the alerts are left out.
use ib_trader.Prelude.{
  ℕ, String, Bool, true, false, not, ◌&&◌, ◌||◌, ◌==◌, Option, none, some, List, [], ◌∷◌,
  if◌then◌else◌, is_some, select, any,
}
use ib_trader.Prelude.Text.{str_eq}
use ib_trader.Prelude.Int.{ℤ, pos, ◌+ℤ◌, ◌-ℤ◌, ◌*ℤ◌, ltb_ℤ}
use ib_trader.Transactions.{
  LegType, Side, buy, sell, Event, Table, reconciled, discrepancy, is_fill, insert, get_open_orders,
  get_trade_leg_summary, get_for_trade, get_filled_legs,
}
use ib_trader.Transactions.Recovery.{Trade, close}
pub mod Orders
pub mod Settled
pub mod Flagged
pub mod Closing
mod Tests

abbrev pub or_zero : Option ℤ → ℤ
or_zero none = pos 0
or_zero (some v) = v

-- The sums of `_maybe_close_trade_group`; `has_entry` goes with the direction, the side of an entry.
pub record Totals : Type 0 where
  pub entry_value : ℤ
  pub exit_value : ℤ
  pub has_exit : Bool
  pub direction : Option Side

abbrev pub no_totals : Totals
no_totals = record { entry_value = pos 0; exit_value = pos 0; has_exit = false; direction = none }

abbrev pub value : Event → ℤ
value t = or_zero t.ib_avg_fill_price *ℤ or_zero t.ib_filled_qty

abbrev pub add_entry : Event → Totals → Totals
add_entry t s = record s { entry_value = s.entry_value +ℤ value t; direction = some t.side }

abbrev pub add_exit : Event → Totals → Totals
add_exit t s = record s { exit_value = s.exit_value +ℤ value t; has_exit = true }

abbrev pub add_leg : Option LegType → Event → Totals → Totals
add_leg none t s = s
add_leg (some LegType.entry) t s = if is_fill t.action then add_entry t s else s
add_leg (some LegType.profit_taker) t s = if is_fill t.action then add_exit t s else s
add_leg (some LegType.stop_loss) t s = if is_fill t.action then add_exit t s else s
add_leg (some LegType.close_leg) t s = if is_fill t.action then add_exit t s else s

unfoldable pub sum_legs : List Event → Totals → Totals
sum_legs [] s = s
sum_legs (t ∷ legs) s = sum_legs legs (add_leg t.leg_type t s)

-- The first positive multiplier of the trade's rows, or 1.
unfoldable pub multiplier_of : List Event → ℤ
multiplier_of [] = pos 1
multiplier_of (t ∷ rows) =
    let rest = multiplier_of rows in
    elim t.multiplier [ none ↦ rest | some m ↦ if ltb_ℤ (pos 0) m then m else rest ]

unfoldable pub total_commission : List Event → ℤ
total_commission [] = pos 0
total_commission (t ∷ rows) = or_zero t.commission +ℤ total_commission rows

abbrev pub gain : Side → Totals → ℤ
gain buy s = s.exit_value -ℤ s.entry_value
gain sell s = s.entry_value -ℤ s.exit_value

abbrev pub realized : Totals → ℤ → Option ℤ
realized s multiplier = elim s.direction [
  | none ↦ none
  | some side ↦ if s.has_exit then some (gain side s *ℤ multiplier) else none
]

-- `update_pnl(trade_id, pnl, commission)` with a P&L
unfoldable pub update_pnl : String → ℤ → ℤ → List Trade → List Trade
update_pnl id pnl commission [] = []
update_pnl id pnl commission (tr ∷ trades) =
    (if str_eq tr.id id
      then record tr { realized_pnl = some pnl; total_commission = some commission }
      else tr)
    ∷ update_pnl id pnl commission trades

unfoldable pub realized_pnl : String → Table → Option ℤ
realized_pnl id log =
    realized (sum_legs (get_filled_legs id log) no_totals) (multiplier_of (get_for_trade id log))

abbrev pub book : String → Table → Option ℤ → List Trade → List Trade
book id log none trades = trades
book id log (some pnl) trades = update_pnl id pnl (total_commission (get_for_trade id log)) trades

abbrev pub close_if_over : String → Table → List Event → List Trade → List Trade
close_if_over id log [] trades = trades
close_if_over id log (leg ∷ legs) trades =
    if any (λ (t : Event). not t.is_terminal) (leg ∷ legs)
    then trades
    else close id (book id log (realized_pnl id log) trades)

unfoldable pub maybe_close_trade_group : String → Table → List Trade → List Trade
maybe_close_trade_group id log trades = close_if_over id log (get_trade_leg_summary id log) trades

-- FILLED_STATUSES, CANCELED_STATUSES and the others.
pub data IbStatus : Type 0 where
  ib_filled : IbStatus
  ib_cancelled : IbStatus
  ib_working : IbStatus

pub record OrderStatus : Type 0 where
  pub status : IbStatus
  pub qty_filled : ℤ
  pub avg_fill_price : Option ℤ
  pub commission : Option ℤ

-- What a round does with an order.
pub data Finding : Type 0 where
  keep : Finding
  raised : Finding
  over : ℕ → OrderStatus → Finding

abbrev pub ended : ℕ → OrderStatus → Finding
ended i st = elim st.status [ ib_filled ↦ over i st | ib_cancelled ↦ over i st | ib_working ↦ keep ]

-- A key of the dict `ib_by_id`. The client of the broker gives the ids as texts, a row of the log has
-- a number; Python finds a number equal to no text.
pub data Key : Type 0 where
  text : String → Key
  number : ℕ → Key

abbrev pub same_key : Key → Key → Bool
same_key (text s) (text t) = str_eq s t
same_key (number m) (number n) = m == n
same_key (text s) (number n) = false
same_key (number m) (text t) = false

-- `ib_by_id.get(key) is not None`
unfoldable pub has_key : Key → List String → Bool
has_key key ib_by_id = any (λ (id : String). same_key (text id) key) ib_by_id

unfoldable pub find_order : List String → (ℕ → Option OrderStatus) → Option ℕ → Finding
find_order ib_by_id get_order_status none = keep
find_order ib_by_id get_order_status (some i) =
    if i == 0 || has_key (number i) ib_by_id
    then keep
    else elim (get_order_status i) [ none ↦ raised | some st ↦ ended i st ]

abbrev pub row_of : IbStatus → OrderStatus → Event → Event
row_of ib_filled st txn = record txn {
  correlation_id = none;
  action = reconciled;
  is_terminal = true;
  ib_filled_qty = some st.qty_filled;
  ib_avg_fill_price = some (or_zero st.avg_fill_price);
  commission = some (or_zero st.commission);
}
row_of _ st txn = record txn {
  correlation_id = none;
  action = reconciled;
  is_terminal = true;
  ib_filled_qty = none;
  ib_avg_fill_price = none;
  commission = none;
}

unfoldable pub reconciled_row : OrderStatus → Event → Event
reconciled_row st txn = row_of st.status st txn

pub record World : Type 0 where
  pub log : Table
  pub trades : List Trade

abbrev pub maybe_close : Option String → Table → List Trade → List Trade
maybe_close none log trades = trades
maybe_close (some id) log trades =
    if str_eq id "" then trades else maybe_close_trade_group id log trades

unfoldable pub settle : OrderStatus → Event → World → World
settle st txn w =
    let log = insert (reconciled_row st txn) w.log in
    record { log = log; trades = maybe_close txn.trade_id log w.trades }

pub record Run : Type 0 where
  pub world : World
  pub changes : List ℕ
  pub failed : Bool

unfoldable pub reconcile : List String → (ℕ → Option OrderStatus) → List Event → World → Run
reconcile ib_by_id get_order_status [] w = record { world = w; changes = []; failed = false }
reconcile ib_by_id get_order_status (txn ∷ local_open) w =
    elim (find_order ib_by_id get_order_status txn.ib_order_id) [
      | keep ↦ reconcile ib_by_id get_order_status local_open w
      | raised ↦ record { world = w; changes = []; failed = true }
      | over i st ↦
          let run = reconcile ib_by_id get_order_status local_open (settle st txn w) in
          record run { changes = i ∷ run.changes }
    ]

-- After a failure nothing is reported, but what was written stays.
unfoldable pub run_reconciliation : List String → (ℕ → Option OrderStatus) → World → Run
run_reconciliation ib_by_id get_order_status w =
    let run = reconcile ib_by_id get_order_status (get_open_orders w.log) w in
    if run.failed then record run { changes = [] } else run

-- The row of `run_transaction_reconciliation`; what it does not name is null.
abbrev pub discrepancy_row : Event → Event
discrepancy_row txn = record txn {
  trade_id = none;
  correlation_id = none;
  action = discrepancy;
  leg_type = none;
  ib_filled_qty = none;
  ib_avg_fill_price = none;
  commission = none;
  multiplier = none;
  is_terminal = false;
}

abbrev pub is_missing : (ℕ → Bool) → Option ℕ → Bool
is_missing ib_open none = false
is_missing ib_open (some i) = not (ib_open i)

abbrev pub order_ids : List Event → List ℕ
order_ids [] = []
order_ids (r ∷ rows) =
    let rest = order_ids rows in elim r.ib_order_id [ none ↦ rest | some i ↦ i ∷ rest ]

-- The log, and the rows of the orders in `details`, for each of which there is an alert.
unfoldable pub flag : (ℕ → Bool) → List Event → Table → Table × List Event
flag ib_open [] log = (log, [])
flag ib_open (txn ∷ our_open) log =
    let (after, found) =
      flag ib_open our_open
        (if is_missing ib_open txn.ib_order_id then insert (discrepancy_row txn) log else log) in
    (after, if is_missing ib_open txn.ib_order_id then txn ∷ found else found)

unfoldable pub run_transaction_reconciliation : (ℕ → Bool) → Table → Table × List ℕ
run_transaction_reconciliation ib_open log =
    let (after, found) = flag ib_open (get_open_orders log) log in (after, order_ids found)
