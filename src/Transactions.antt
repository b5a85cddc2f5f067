-- ===== src/Transactions.antt =====
-- The log of transactions, ib_trader/data/repositories/transaction_repository.py, as the queries
-- read it: a table of rows whose ids grow.
use ib_trader.Prelude.{
  ℕ, suc, ◌+◌, String, Bool, true, false, not, ◌&&◌, ◌||◌, Option, none, some, List, [], ◌∷◌, ◌++◌,
  ltb, ◌==◌, if◌then◌else◌, is_some, select, all, any,
}
use ib_trader.Prelude.Text.{str_eq}
use ib_trader.Prelude.Int.{ℤ, pos, ◌+ℤ◌}
pub mod OpenOrders
pub mod Attempts
pub mod Recovery
mod Tests

pub data Action : Type 0 where
  place_attempt : Action
  place_accepted : Action
  place_rejected : Action
  amended : Action
  partial_fill : Action
  filled : Action
  cancel_attempt : Action
  cancelled : Action
  error_terminal : Action
  reconciled : Action
  discrepancy : Action

pub data LegType : Type 0 where
  entry : LegType
  profit_taker : LegType
  stop_loss : LegType
  close_leg : LegType

-- `"BUY"` and `"SELL"`
pub data Side : Type 0 where
  buy : Side
  sell : Side

-- The columns that the queries and the reconciler of the daemon read. A multiplier that is no number
-- is none, since whoever reads it skips it.
pub record Event : Type 0 where
  pub id : ℕ
  pub ib_order_id : Option ℕ
  pub trade_id : Option String
  pub correlation_id : Option String
  pub action : Action
  pub leg_type : Option LegType
  pub side : Side
  pub ib_filled_qty : Option ℤ
  pub ib_avg_fill_price : Option ℤ
  pub commission : Option ℤ
  pub multiplier : Option ℤ
  pub is_terminal : Bool

pub record Table : Type 0 where
  pub rows : List Event
  pub next_id : ℕ

-- `_TERMINAL_ACTIONS`
abbrev pub is_terminal_action : Action → Bool
is_terminal_action filled = true
is_terminal_action cancelled = true
is_terminal_action place_rejected = true
is_terminal_action error_terminal = true
is_terminal_action reconciled = true
is_terminal_action place_attempt = false
is_terminal_action place_accepted = false
is_terminal_action amended = false
is_terminal_action partial_fill = false
is_terminal_action cancel_attempt = false
is_terminal_action discrepancy = false

abbrev pub is_fill : Action → Bool
is_fill filled = true
is_fill partial_fill = true
is_fill place_attempt = false
is_fill place_accepted = false
is_fill place_rejected = false
is_fill amended = false
is_fill cancel_attempt = false
is_fill cancelled = false
is_fill error_terminal = false
is_fill reconciled = false
is_fill discrepancy = false

-- The row as it is stored.
abbrev pub stored : Event → ℕ → Event
stored e n = record e { id = n; is_terminal = is_terminal_action e.action || e.is_terminal }

unfoldable pub insert : Event → Table → Table
insert e t = record { rows = t.rows ++ stored e t.next_id ∷ []; next_id = t.next_id + 1 }

-- A row without an order is in no group.
abbrev pub same_order : Option ℕ → Option ℕ → Bool
same_order none o = false
same_order (some i) none = false
same_order (some i) (some j) = i == j

-- A row that the join with `max(id) ... group_by(ib_order_id)` keeps.
abbrev pub is_latest : List Event → Event → Bool
is_latest pool r =
    is_some r.ib_order_id
    && all (λ (s : Event). not (same_order s.ib_order_id r.ib_order_id && ltb r.id s.id)) pool

unfoldable pub get_open_orders : Table → List Event
get_open_orders t = select (λ (r : Event). is_latest t.rows r && not r.is_terminal) t.rows

abbrev pub is_of : String → Event → Bool
is_of trade_id r = elim r.trade_id [ none ↦ false | some t ↦ str_eq t trade_id ]

unfoldable pub get_trade_leg_summary : String → Table → List Event
get_trade_leg_summary trade_id t =
    let pool = select (is_of trade_id) t.rows in select (is_latest pool) pool

unfoldable pub get_open_for_trade : String → Table → List Event
get_open_for_trade trade_id t =
    let pool = select (is_of trade_id) t.rows in
    select (λ (r : Event). is_latest pool r && not r.is_terminal) pool

-- The rows of a trade in the order of their ids.
unfoldable pub get_for_trade : String → Table → List Event
get_for_trade trade_id t = select (is_of trade_id) t.rows

unfoldable pub get_filled_legs : String → Table → List Event
get_filled_legs trade_id t = select (λ (r : Event). is_of trade_id r && is_fill r.action) t.rows

-- The dict of `has_unconfirmed_placements`, by correlation id.
abbrev pub Marks : Type 0
Marks = List (Option String × Bool)

abbrev pub same_cid : Option String → Option String → Bool
same_cid none none = true
same_cid none (some s) = false
same_cid (some s) none = false
same_cid (some s) (some t) = str_eq s t

unfoldable pub marked : Option String → Marks → Option Bool
marked c [] = none
marked c ((d, b) ∷ m) = if same_cid d c then some b else marked c m

unfoldable pub mark : Option String → Bool → Marks → Marks
mark c b [] = (c, b) ∷ []
mark c b ((d, a) ∷ m) = if same_cid d c then (d, b) ∷ m else (d, a) ∷ mark c b m

-- One round of the loop: an attempt is marked unless its id is, an acceptance or any other terminal
-- row confirms its id.
abbrev pub is_attempt : Action → Bool
is_attempt place_attempt = true
is_attempt place_accepted = false
is_attempt place_rejected = false
is_attempt amended = false
is_attempt partial_fill = false
is_attempt filled = false
is_attempt cancel_attempt = false
is_attempt cancelled = false
is_attempt error_terminal = false
is_attempt reconciled = false
is_attempt discrepancy = false

abbrev pub is_accepted : Action → Bool
is_accepted place_accepted = true
is_accepted place_attempt = false
is_accepted place_rejected = false
is_accepted amended = false
is_accepted partial_fill = false
is_accepted filled = false
is_accepted cancel_attempt = false
is_accepted cancelled = false
is_accepted error_terminal = false
is_accepted reconciled = false
is_accepted discrepancy = false

abbrev pub see : Event → Marks → Marks
see r m =
    if is_attempt r.action
    then (if is_some (marked r.correlation_id m) then m else mark r.correlation_id false m)
    else (if is_accepted r.action || r.is_terminal then mark r.correlation_id true m else m)

unfoldable pub attempts : List Event → Marks → Marks
attempts [] m = m
attempts (r ∷ rows) m = attempts rows (see r m)

unfoldable pub has_unconfirmed_placements : String → Table → Bool
has_unconfirmed_placements trade_id t =
    any (λ (p : Option String × Bool). not p.1) (attempts (select (is_of trade_id) t.rows) [])
