-- ===== src/Middleware/Risk.antt =====
-- ManualEntryMiddleware and RiskMiddleware of ib_trader/bots/middleware.py. What `_can_trade` reads
-- may change between two actions: `reads n` is what it meets at the n-th.
use ib_trader.Prelude.{
  ℕ, suc, ◌+◌, String, Bool, false, not, ◌&&◌, Option, none, some, List, [], ◌∷◌, leb,
  if◌then◌else◌,
}
use ib_trader.Prelude.Int.{ℤ, pos, ◌*ℤ◌, neg_ℤ, ltb_ℤ, eqb_ℤ}
use ib_trader.Prelude.Text.{str_eq}
use ib_trader.Middleware.Actions.{
  Action, place_order, cancel_order, update_state, log_signal, emit_audit, PlaceOrder, is_buy,
  is_strategy, manual_entry_only, risk, Reason, kill_switch_active, daily_loss_cap, max_positions,
  max_position_value, max_shares,
}
use ib_trader.Middleware.Stats.{KillRead, is_kill_switch_engaged, Stats, get_stats}

pub record RiskConfig : Type 0 where
  pub max_daily_loss_pct : ℤ
  pub account_value : ℤ
  pub max_concurrent_positions : ℕ
  pub max_value : ℤ
  pub max_qty : ℤ

-- `manual_entry_only` is the bot's flag.
abbrev pub manual_entry_process : Bool → List Action → List Action
manual_entry_process enabled [] = []
manual_entry_process enabled (place_order order ∷ actions) =
    (if enabled && is_strategy order.origin
      then log_signal (manual_entry_only order)
      else place_order order)
    ∷ manual_entry_process enabled actions
manual_entry_process enabled (cancel_order serial ∷ actions) =
    cancel_order serial ∷ manual_entry_process enabled actions
manual_entry_process enabled (update_state fields ∷ actions) =
    update_state fields ∷ manual_entry_process enabled actions
manual_entry_process enabled (log_signal signal ∷ actions) =
    log_signal signal ∷ manual_entry_process enabled actions
manual_entry_process enabled (emit_audit row ∷ actions) =
    emit_audit row ∷ manual_entry_process enabled actions

-- What `_can_trade` reads: the kill switch, the counters, and the sources of the open trades.
pub record Reads : Type 0 where
  pub kill : KillRead
  pub today : ℕ
  pub stored : Option Stats
  pub open_sources : List String

-- `len(bot_trades)`
abbrev pub count_source : String → List String → ℕ
count_source source [] = 0
count_source source (s ∷ sources) = (if str_eq s source then 1 else 0) + count_source source sources

-- `order.price and order.qty * order.price > max_value`
abbrev pub exceeds_value : PlaceOrder → ℤ → Bool
exceeds_value order limit = elim order.price [
  | none ↦ false
  | some price ↦ not (eqb_ℤ price (pos 0)) && ltb_ℤ limit (order.qty *ℤ price)
]

abbrev pub loss_limit : RiskConfig → ℤ
loss_limit config = neg_ℤ (config.max_daily_loss_pct *ℤ config.account_value)

module _ (config : RiskConfig) (bot_source : String) where
  -- The reason of a refusal; `none` is `(True, "")`.
  unfoldable pub can_trade : Reads → PlaceOrder → Option Reason
  can_trade reads order =
      if is_kill_switch_engaged reads.kill
      then some kill_switch_active
      else (if ltb_ℤ (get_stats reads.today reads.stored).pnl_today (loss_limit config)
          then some daily_loss_cap
          else (if is_buy order.side
                && leb config.max_concurrent_positions (count_source bot_source reads.open_sources)
              then some max_positions
              else (if exceeds_value order config.max_value
                  then some max_position_value
                  else (if ltb_ℤ config.max_qty order.qty then some max_shares else none))))

  -- One action of RiskMiddleware's loop.
  unfoldable pub risk_check : Reads → PlaceOrder → Action
  risk_check reads order =
      if is_buy order.side
      then elim (can_trade reads order) [
        | none ↦ place_order order
        | some reason ↦ log_signal (risk order reason)
      ]
      else place_order order

  unfoldable pub risk_process : (ℕ → Reads) → List Action → List Action
  risk_process reads [] = []
  risk_process reads (place_order order ∷ actions) =
      risk_check (reads 0) order ∷ risk_process (λ n. reads (suc n)) actions
  risk_process reads (cancel_order serial ∷ actions) =
      cancel_order serial ∷ risk_process (λ n. reads (suc n)) actions
  risk_process reads (update_state fields ∷ actions) =
      update_state fields ∷ risk_process (λ n. reads (suc n)) actions
  risk_process reads (log_signal signal ∷ actions) =
      log_signal signal ∷ risk_process (λ n. reads (suc n)) actions
  risk_process reads (emit_audit row ∷ actions) =
      emit_audit row ∷ risk_process (λ n. reads (suc n)) actions
