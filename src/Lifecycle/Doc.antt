-- ===== src/Lifecycle/Doc.antt =====
-- The document `bot:<id>` of ib_trader/bots/lifecycle.py. The store hands out the last document
-- written; Decimal texts are integers in one unit, times are ticks, and what only a strategy reads
-- is kept as text.
use ib_trader.Prelude.{
  ℕ, String, Bool, true, false, Option, none, some, List, [], ◌||◌, if◌then◌else◌,
}
use ib_trader.Prelude.Int.{ℤ, pos, eqb_ℤ}
use ib_trader.Prelude.Text.{str_eq}

pub data BotState : Type 0 where
  off errored awaiting_entry_trigger entry_order_placed : BotState
  awaiting_exit_trigger exit_order_placed : BotState

-- `ERROR_REASONS`
pub data ErrorReason : Type 0 where
  crash force_stop ib_mismatch exit_retries_exhausted task_crashed operator_reset : ErrorReason

abbrev pub max_exit_retries : ℕ
max_exit_retries = 3

-- `ACTIVE_STATES`
abbrev pub is_active : BotState → Bool
is_active BotState.entry_order_placed = true
is_active BotState.awaiting_exit_trigger = true
is_active BotState.exit_order_placed = true
is_active BotState.errored = true
is_active _ = false

pub data Side : Type 0 where
  buy sell : Side

pub data Direction : Type 0 where
  long short : Direction

pub data Origin : Type 0 where
  strategy exit manual_override : Origin

-- The fields that both clearing functions reset.
pub record Leg : Type 0 where
  pub qty : ℤ
  pub entry_price : Option ℤ
  pub entry_time : Option ℕ
  pub serial : Option ℕ
  pub ib_order_id : Option String
  pub awaiting_ib_order_id : Option String
  pub high_water_mark : Option ℤ
  pub current_stop : Option ℤ
  pub trail_activated : Bool
  pub order_qty : Option ℤ
  pub filled_qty : ℤ

-- The fields of the strategy that only `clear_position_fields` resets.
pub record Plan : Type 0 where
  pub entry_line : Option String
  pub entry_bar_time : Option String
  pub position_direction : Option Direction
  pub low_water_mark : Option ℤ
  pub active_stop : Option ℤ
  pub exit_reason : Option String
  pub exit_detail : Option String
  pub counter_lines_cache : List String
  pub counter_lines_tol : ℤ
  pub counter_touch : Option String
  pub trade_atr : Option ℤ
  pub sl_touch : Option String
  pub sl_last_check_ts : Option ℕ

-- The fields that no clearing function touches.
pub record Track : Type 0 where
  pub avg_price : Option ℤ
  pub order_origin : Option Origin
  pub exit_retries : ℕ
  pub trail_reset_count : ℕ
  pub entry_serial : Option ℕ
  pub entry_ib_order_id : Option String
  pub last_realized_pnl : Option ℤ
  pub cooldown_until : Option ℕ

-- A message: a given text, or the one that tells of the shares left unsold.
pub data Message : Type 0 where
  text : String → Message
  unsold : ℤ → Option String → Message

pub record Doc : Type 0 where
  pub state : BotState
  pub error_reason : Option ErrorReason
  pub error_message : Option Message
  pub symbol : Option String
  pub leg : Leg
  pub plan : Plan
  pub track : Track
  pub updated_at : ℕ

-- `clear_position_fields_for_entry_timeout`
unfoldable pub cleared_leg : Leg
cleared_leg = record {
  qty = pos 0;
  entry_price = none;
  entry_time = none;
  serial = none;
  ib_order_id = none;
  awaiting_ib_order_id = none;
  high_water_mark = none;
  current_stop = none;
  trail_activated = false;
  order_qty = none;
  filled_qty = pos 0;
}

unfoldable pub cleared_plan : Plan
cleared_plan = record {
  entry_line = none;
  entry_bar_time = none;
  position_direction = none;
  low_water_mark = none;
  active_stop = none;
  exit_reason = none;
  exit_detail = none;
  counter_lines_cache = [];
  counter_lines_tol = pos 0;
  counter_touch = none;
  trade_atr = none;
  sl_touch = none;
  sl_last_check_ts = none;
}

-- `doc.update(clear_position_fields())`
abbrev pub clear_position_fields : Doc → Doc
clear_position_fields doc = record doc { leg = cleared_leg; plan = cleared_plan }

-- `_apply_transition`, once the patch is merged
abbrev pub apply_transition : ℕ → BotState → Doc → Doc
apply_transition now new_state doc = record doc { state = new_state; updated_at = now }

-- `force_off_state`
unfoldable pub force_off_state : ℕ → Option ErrorReason → Doc → Doc
force_off_state now reason doc = record (clear_position_fields doc) {
  state = BotState.off;
  error_reason = reason;
  error_message = none;
  updated_at = now;
}

pub data Dirt : Type 0 where
  bad_state : BotState → Dirt
  bad_qty : ℤ → Dirt
  bad_entry_price bad_awaiting_id bad_order_id : Dirt

abbrev pub is_off : BotState → Bool
is_off BotState.off = true
is_off _ = false

-- `v not in (None, "", "None")`
abbrev pub is_set : Option String → Bool
is_set none = false
is_set (some v) = if str_eq v "" || str_eq v "None" then false else true

abbrev pub is_priced : Option ℤ → Bool
is_priced none = false
is_priced (some _) = true

-- `is_clean_for_start`: `none` is clean, else the first thing that is wrong
unfoldable pub is_clean_for_start : Option Doc → Option Dirt
is_clean_for_start none = none
is_clean_for_start (some doc) =
    if is_off doc.state
    then (if eqb_ℤ doc.leg.qty (pos 0)
        then (if is_priced doc.leg.entry_price
            then some bad_entry_price
            else if is_set doc.leg.awaiting_ib_order_id
            then some bad_awaiting_id
            else if is_set doc.leg.ib_order_id
            then some bad_order_id
            else none)
        else some (bad_qty doc.leg.qty))
    else some (bad_state doc.state)

-- What a trade leaves behind for `_handle_record_trade_closed`.
pub record ClosedTrade : Type 0 where
  pub realized_pnl : ℤ
  pub direction : Direction
  pub entry_price : ℤ
  pub entry_qty : ℤ
  pub exit_price : ℤ
  pub exit_qty : ℤ

-- What a handler does besides writing the document.
pub data Effect : Type 0 where
  cancel_order : String → Option ℕ → Option String → Effect
  pager_alert : ErrorReason → Option String → Effect
  log_manual_close : Effect
  notify_rejected : Effect
  notify_filled : Side → ℤ → ℤ → Effect
  entry_email : Effect
  record_trade_closed : ClosedTrade → Effect
  retry_exit_order : Option String → ℤ → ℕ → Side → Effect
  request_stop : Effect

-- How a handler ends: with a state, with `None`, or by an exception.
pub data Answer : Type 0 where
  in_state : BotState → Answer
  refused raised : Answer

pub record Outcome : Type 0 where
  pub doc : Doc
  pub effects : List Effect
  pub answer : Answer
