-- ===== src/Transactions/Tests.antt =====
-- The transaction log and the recovery of ib_trader/engine/recovery.py at a small log.
use ib_trader.Prelude.{
  ℕ, String, true, false, not, ◌&&◌, Option, none, some, List, [], ◌∷◌, select, all, length, ◌≡◌,
  ◌↔◌, refl,
}
use ib_trader.Transactions.{
  entry, buy, Action, Event, Table, place_attempt, place_accepted, partial_fill, cancelled, is_fill,
  insert, is_of, marked, mark, attempts, get_open_orders, get_trade_leg_summary,
  has_unconfirmed_placements,
}
use ib_trader.Transactions.OpenOrders.{insert_all, run, get_open_orders-insert_all}
use ib_trader.Transactions.Attempts.{attempted, confirmed, has_unconfirmed_placements_lem}
use ib_trader.Transactions.Recovery.{
  Trade, opened, partly, get_open, close_picked, is_orphan, recover_in_flight_orders,
  close_orphaned_trade_groups, recover_in_flight_orders_lem, close_orphaned_trade_groups_lem,
}

abbrev row : Option ℕ → String → String → Action → Event
row order trade cid action = record {
  id = 0;
  ib_order_id = order;
  trade_id = some trade;
  correlation_id = some cid;
  action = action;
  leg_type = some entry;
  side = buy;
  ib_filled_qty = none;
  ib_avg_fill_price = none;
  commission = none;
  multiplier = none;
  is_terminal = false;
}

abbrev empty : Table
empty = record { rows = []; next_id = 1 }

-- Trade "a" is filled in part and the rest cancelled, trade "b" crashed while it was placed.
abbrev events : List Event
events =
    row none "a" "x" place_attempt
    ∷ row (some 7) "a" "x" place_accepted
    ∷ row (some 7) "a" "x" partial_fill
    ∷ row (some 7) "a" "x" cancelled
    ∷ row none "b" "y" place_attempt
    ∷ []

abbrev log : Table
log = insert_all events empty

abbrev trades : List Trade
trades =
    record {
      id = "a";
      serial_number = 1;
      symbol = "QQQ";
      status = opened;
      realized_pnl = none;
      total_commission = none;
    }
    ∷ record {
      id = "b";
      serial_number = 2;
      symbol = "ES";
      status = opened;
      realized_pnl = none;
      total_commission = none;
    }
    ∷ record {
      id = "c";
      serial_number = 3;
      symbol = "GC";
      status = partly;
      realized_pnl = none;
      total_commission = none;
    }
    ∷ []

recovered :
    (recover_in_flight_orders log trades).1
    ≡ record {
      id = "b";
      serial_number = 2;
      symbol = "ES";
      status = opened;
      realized_pnl = none;
      total_commission = none;
    }
      ∷ []
unfolding recover_in_flight_orders close_picked has_unconfirmed_placements attempts insert marked
    mark
recovered = refl

-- The fill of trade "a" is forgotten: only the last row of its order counts, the cancel.
partial_fill_forgotten : is_orphan log "a" ≡ true
unfolding is_orphan get_trade_leg_summary insert
partial_fill_forgotten = refl

get_open_orders-insert_all_example :
    get_open_orders (insert_all events empty) ≡ run events 1 (get_open_orders empty)
get_open_orders-insert_all_example = get_open_orders-insert_all events empty tt

has_unconfirmed_placements_lem_example :
    let pool = select (is_of "b") log.rows in
    (has_unconfirmed_placements "b" log ≡ true)
    ↔ ((c : Option String) × (attempted c pool ≡ true) × (confirmed c pool ≡ false))
has_unconfirmed_placements_lem_example = has_unconfirmed_placements_lem "b" log

recover_in_flight_orders_lem_example :
    let unconfirmed = λ (tr : Trade). has_unconfirmed_placements tr.id log in
    let (after, abandoned) = recover_in_flight_orders log trades in
    (get_open after ≡ select (λ (tr : Trade). not (unconfirmed tr)) (get_open trades))
    × (abandoned ≡ select unconfirmed (get_open trades))
    × (recover_in_flight_orders log after ≡ (after, []))
recover_in_flight_orders_lem_example = recover_in_flight_orders_lem log trades

close_orphaned_trade_groups_lem_example :
    let orphan = λ (tr : Trade).
      all
        (λ (r : Event). r.is_terminal && not (is_fill r.action))
        (get_trade_leg_summary tr.id log) in
    let (after, count) = close_orphaned_trade_groups log trades in
    (get_open after ≡ select (λ (tr : Trade). not (orphan tr)) (get_open trades))
    × (count ≡ length (select orphan (get_open trades)))
    × (close_orphaned_trade_groups log after ≡ (after, 0))
close_orphaned_trade_groups_lem_example = close_orphaned_trade_groups_lem log trades
