-- ===== src/Lifecycle/ExitFill.antt =====
-- `on_exit_filled` of ib_trader/bots/runtime.py: the close of a trade, its profit or loss, and the
-- retries for what an exit order left unsold.
use ib_trader.Prelude.{ℕ, ◌+◌, Bool, Option, none, some, [], ◌∷◌, ◌++◌, if◌then◌else◌, leb}
use ib_trader.Prelude.Int.{ℤ, pos, ◌-ℤ◌, ◌*ℤ◌, eqb_ℤ, ltb_ℤ, max_ℤ}
use ib_trader.Lifecycle.Doc.{
  BotState, off, errored, awaiting_entry_trigger, exit_order_placed, exit_retries_exhausted, Side,
  buy, sell, Direction, long, short, Doc, unsold, clear_position_fields, apply_transition,
  max_exit_retries, ClosedTrade, pager_alert, notify_filled, record_trade_closed, retry_exit_order,
  request_stop, Outcome, in_state,
}
use ib_trader.Lifecycle.Control.{unchanged, if_symbol}
use ib_trader.Lifecycle.Orders.{FillEvent}

-- The part of `strategy_config` that the handler reads.
pub record ExitConfig : Type 0 where
  pub contract_multiplier : ℤ
  pub stop_on_exit : Bool
  pub cooldown_seconds : ℕ

abbrev pub exit_direction : Option Direction → Side → Direction
exit_direction (some d) side = d
exit_direction none sell = long
exit_direction none buy = short

abbrev pub closing_side : Direction → Side
closing_side long = sell
closing_side short = buy

abbrev pub price_or_zero : Option ℤ → ℤ
price_or_zero none = pos 0
price_or_zero (some p) = p

abbrev pub signed_gain : Direction → ℤ → ℤ → ℤ
signed_gain long entry_price price = price -ℤ entry_price
signed_gain short entry_price price = entry_price -ℤ price

-- The realized profit or loss of a full close.
unfoldable pub realized_pnl : Direction → ℤ → ℤ → ℤ → ℤ → ℤ
realized_pnl direction entry_price price position_qty multiplier =
    if ltb_ℤ (pos 0) entry_price
    then signed_gain direction entry_price price *ℤ position_qty *ℤ multiplier
    else pos 0

-- `max(position_qty - qty, Decimal("0"))`
abbrev pub remaining_qty : ℤ → ℤ → ℤ
remaining_qty position_qty qty = max_ℤ (position_qty -ℤ qty) (pos 0)

exit_progress : ℕ → FillEvent → Doc → Outcome
exit_progress now fill doc = record {
  doc = record doc { leg = record (doc.leg) { filled_qty = fill.qty }; updated_at = now };
  effects = [];
  answer = in_state doc.state;
}

abbrev pub trade_of : ExitConfig → FillEvent → Doc → ClosedTrade
trade_of config fill doc =
    let direction = exit_direction doc.plan.position_direction fill.side in
    let entry_price = price_or_zero doc.leg.entry_price in
    record {
      realized_pnl =
          realized_pnl direction entry_price fill.price doc.leg.qty config.contract_multiplier;
      direction = direction;
      entry_price = entry_price;
      entry_qty = doc.leg.qty;
      exit_price = fill.price;
      exit_qty = fill.qty;
    }

exit_flat : ℕ → ExitConfig → FillEvent → Doc → Outcome
exit_flat now config fill doc =
    let trade = trade_of config fill doc in
    let cleared = record (clear_position_fields doc) {
      track = record (doc.track) {
        last_realized_pnl = some trade.realized_pnl;
        exit_retries = 0;
        trail_reset_count = 0;
        cooldown_until =
            if config.stop_on_exit
            then doc.track.cooldown_until
            else some (now + config.cooldown_seconds);
      };
    } in
    let target = if config.stop_on_exit then off else awaiting_entry_trigger in
    record {
      doc = apply_transition now target cleared;
      effects =
          (if config.stop_on_exit then request_stop ∷ [] else [])
          ++ (record_trade_closed trade
              ∷ if_symbol doc (notify_filled fill.side fill.price fill.qty ∷ []));
      answer = in_state awaiting_entry_trigger;
    }

exit_exhausted : ℕ → ℤ → Doc → Outcome
exit_exhausted now left doc = record {
  doc = apply_transition now errored (record doc {
    leg = record (doc.leg) { qty = left };
    error_reason = some exit_retries_exhausted;
    error_message = some (unsold left doc.symbol);
  });
  effects = pager_alert exit_retries_exhausted doc.symbol ∷ [];
  answer = in_state errored;
}

exit_retry : ℕ → FillEvent → ℤ → Doc → Outcome
exit_retry now fill left doc =
    let direction = exit_direction doc.plan.position_direction fill.side in
    record {
      doc = apply_transition now exit_order_placed (record doc {
        leg = record (doc.leg) { qty = left; order_qty = some left; filled_qty = pos 0 };
        track = record (doc.track) { exit_retries = doc.track.exit_retries + 1 };
      });
      effects =
          retry_exit_order doc.symbol left (doc.track.exit_retries + 1) (closing_side direction)
          ∷ if_symbol doc (notify_filled fill.side fill.price fill.qty ∷ []);
      answer = in_state exit_order_placed;
    }

exit_fill : ℕ → ExitConfig → FillEvent → Doc → Outcome
unfolding exit_progress exit_flat exit_exhausted exit_retry
exit_fill now config fill doc =
    let left = remaining_qty doc.leg.qty fill.qty in
    if fill.terminal
    then (if eqb_ℤ left (pos 0)
        then exit_flat now config fill doc
        else if leb max_exit_retries doc.track.exit_retries
        then exit_exhausted now left doc
        else exit_retry now fill left doc)
    else exit_progress now fill doc

unfoldable pub on_exit_filled : ℕ → ExitConfig → FillEvent → Doc → Outcome
unfolding exit_fill
on_exit_filled now config fill doc = elim doc.state [
  | BotState.exit_order_placed ↦ exit_fill now config fill doc
  | _ ↦ unchanged doc
]
