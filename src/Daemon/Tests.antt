-- ===== src/Daemon/Tests.antt =====
-- The daemon's reconciliation at a trade whose exit the broker has filled.
use ib_trader.Prelude.{
  String, ℕ, Bool, false, not, Option, none, some, List, [], ◌∷◌, select, ◌≡◌, refl,
}
use ib_trader.Prelude.Int.{ℤ, pos, ◌*ℤ◌, ◌-ℤ◌, ◌+ℤ◌}
use ib_trader.Transactions.{
  LegType, Side, buy, sell, Action, filled, place_accepted, Event, Table, insert, get_open_orders,
  get_trade_leg_summary, get_filled_legs, get_for_trade,
}
use ib_trader.Transactions.OpenOrders.{IsTable, insert-IsTable}
use ib_trader.Transactions.Recovery.{Trade, opened, closed, close}
use ib_trader.Daemon.{
  reconcile, find_order, has_key, settle, flag, OrderStatus, ib_filled, is_missing, order_ids,
  sum_legs, multiplier_of, realized_pnl, reconciled_row, maybe_close_trade_group, World,
  run_reconciliation, run_transaction_reconciliation,
}
use ib_trader.Daemon.Orders.{occurs}
use ib_trader.Daemon.Settled.{is_over, run_reconciliation_lem}
use ib_trader.Daemon.Flagged.{run_transaction_reconciliation_lem}
use ib_trader.Daemon.Closing.{flows, realized_pnl_lem}

abbrev row : ℕ → LegType → Side → Action → ℤ → Event
row order leg side action price = record {
  id = 0;
  ib_order_id = some order;
  trade_id = some "a";
  correlation_id = none;
  action = action;
  leg_type = some leg;
  side = side;
  ib_filled_qty = some (pos 2);
  ib_avg_fill_price = some price;
  commission = none;
  multiplier = some (pos 20);
  is_terminal = false;
}

abbrev empty : Table
empty = record { rows = []; next_id = 1 }

abbrev entry_row : Event
entry_row = row 7 LegType.entry buy filled (pos 100)

abbrev exit_row : Event
exit_row = row 8 LegType.close_leg sell place_accepted (pos 0)

-- The entry is filled, the exit at work.
abbrev log : Table
log = insert exit_row (insert entry_row empty)

log-IsTable : IsTable log
log-IsTable = insert-IsTable exit_row (insert entry_row empty) (insert-IsTable entry_row empty tt)

abbrev trade : Trade
trade = record {
  id = "a";
  serial_number = 1;
  symbol = "MNQ";
  status = opened;
  realized_pnl = none;
  total_commission = none;
}

abbrev world : World
world = record { log = log; trades = trade ∷ [] }

-- The broker shows the exit order itself open.
abbrev ib_by_id : List String
ib_by_id = "8" ∷ []

abbrev ib_open : ℕ → Bool
ib_open i = false

abbrev st : OrderStatus
st = record {
  status = ib_filled;
  qty_filled = pos 2;
  avg_fill_price = some (pos 110);
  commission = none;
}

abbrev answers : ℕ → Option OrderStatus
answers i = some st

-- The trade is closed, and what the exit has earned is booked nowhere.
pnl_is_lost :
    (run_reconciliation ib_by_id answers world).world.trades ≡ record trade { status = closed } ∷ []
unfolding run_reconciliation reconcile get_open_orders insert find_order has_key settle
    maybe_close_trade_group get_trade_leg_summary reconciled_row close realized_pnl sum_legs
    get_filled_legs
pnl_is_lost = refl

-- An order that was flagged first has lost its trade: once the broker tells that it is filled, the
-- trade stays open.
flagged_trade_stays_open :
    let flagged = (run_transaction_reconciliation ib_open log).0 in
    let run = run_reconciliation ib_by_id answers (record world { log = flagged }) in
    (run.changes ≡ 8 ∷ []) × (run.world.trades ≡ trade ∷ [])
unfolding run_reconciliation run_transaction_reconciliation reconcile get_open_orders flag insert
    find_order has_key settle
flagged_trade_stays_open = (refl, refl)

run_reconciliation_lem_example :
    let run = run_reconciliation ib_by_id answers world in
    (get_open_orders run.world.log
      ≡ select (λ (r : Event). not (is_over answers r)) (get_open_orders log))
    × (run.changes ≡ order_ids (select (is_over answers) (get_open_orders log)))
    × (run.failed ≡ false)
unfolding get_open_orders insert find_order
run_reconciliation_lem_example =
    run_reconciliation_lem ib_by_id answers world log-IsTable (refl, tt)

run_transaction_reconciliation_lem_example :
    let (after, details) = run_transaction_reconciliation ib_open log in
    ((o : Option ℕ) → occurs (get_open_orders after) o ≡ occurs (get_open_orders log) o)
    × (details
        ≡ order_ids
            (select (λ (r : Event). is_missing ib_open r.ib_order_id) (get_open_orders log)))
run_transaction_reconciliation_lem_example =
    run_transaction_reconciliation_lem ib_open log log-IsTable

-- With the exit as a row of its own the P&L is 2 * (110 - 100) * 20.
abbrev full : Table
full = insert (row 8 LegType.close_leg sell filled (pos 110)) log

realized_pnl_lem_example :
    pos 400 ≡ flows (get_filled_legs "a" full) *ℤ multiplier_of (get_for_trade "a" full)
unfolding get_filled_legs insert realized_pnl sum_legs multiplier_of get_for_trade ◌*ℤ◌ ◌-ℤ◌ ◌+ℤ◌
realized_pnl_lem_example =
    realized_pnl_lem buy "a" full (pos 400) ((refl, refl), ((refl, refl), tt)) refl
