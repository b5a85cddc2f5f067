-- ===== src/Middleware/Tests.antt =====
-- The action pipeline of ib_trader/bots/middleware.py at concrete actions.
use ib_trader.Prelude.{
  ℕ, suc, String, Bool, true, false, Option, none, some, List, [], ◌∷◌, ◌≡◌, refl, if◌then◌else◌,
}
use ib_trader.Prelude.Int.{pos, negsuc, ◌*ℤ◌}
use ib_trader.Prelude.Dict.{Dict, lookup, insert}
use ib_trader.Middleware.Actions.{
  Action, place_order, update_state, PlaceOrder, Side, buy, sell, Origin, orders, Reason,
}
use ib_trader.Middleware.Stats.{no_store, answered}
use ib_trader.Middleware.Risk.{RiskConfig, Reads, risk_process, risk_check, can_trade}
use ib_trader.Middleware.Screen.{Screened, risk_process-Screened, sells, kill_switch_leaves_sells}
use ib_trader.Middleware.Pipeline.{
  World, is_stripped, process, prepare, execution_process, submit_via_http, conclude,
  persistence_process, write_state, logging_process,
}
use ib_trader.Middleware.Merge.{over}
use ib_trader.Middleware.Rollback.{persisted, failed_process_doc, run}

abbrev config : RiskConfig
config = record {
  max_daily_loss_pct = pos 2;
  account_value = pos 100;
  max_concurrent_positions = 1;
  max_value = pos 1000;
  max_qty = pos 20;
}

abbrev source : String
source = "bot:b1"

abbrev order : Side → Origin → PlaceOrder
order side origin = record {
  symbol = "QQQ";
  side = side;
  qty = pos 5;
  order_type = "mid";
  price = some (pos 100);
  params = [];
  origin = origin;
}

abbrev calm : ℕ → Reads
calm n = record { kill = answered none; today = 3; stored = none; open_sources = "manual" ∷ [] }

abbrev killed : ℕ → Reads
killed n = record { kill = no_store; today = 3; stored = none; open_sources = [] }

abbrev actions : List Action
actions =
    update_state (("state", "OFF") ∷ ("stop", "95") ∷ ("mark", "1") ∷ [])
    ∷ place_order (order buy Origin.strategy)
    ∷ place_order (order sell Origin.exit)
    ∷ []

abbrev world : World
world = record {
  doc = ("state", "AWAITING") ∷ ("stop", "90") ∷ [];
  bot_events = [];
  audit_log = [];
  submitted = [];
  closed = [];
  execution_cmd_id = none;
  pipeline_cmd_id = none;
}

abbrev snapshot : Dict String
snapshot = ("state", "AWAITING") ∷ ("stop", "90") ∷ []

-- The engine takes the first order and fails at the second, or takes all.
abbrev fails_second : ℕ → PlaceOrder → Option (Option String)
fails_second ℕ.zero order = some (some "41")
fails_second (suc n) order = none

abbrev closes : ℕ → ℕ → Bool
closes n serial = true

-- The second order fails: `stop` is what it was, `mark` is what the strategy wrote, and the first
-- order has gone out. Its id stays with the execution, and a later run without orders hands it on.
abbrev after_failure : World
after_failure = (process fails_second closes false config source calm snapshot actions world).0

failed_run :
    (lookup "stop" after_failure.doc ≡ some "90")
    × (lookup "mark" after_failure.doc ≡ some "1")
    × (after_failure.submitted ≡ order buy Origin.strategy ∷ order sell Origin.exit ∷ [])
    × ((process fails_second closes false config source calm snapshot []
          after_failure).0.pipeline_cmd_id
        ≡ some "41")
unfolding process prepare execution_process submit_via_http conclude persistence_process write_state
    logging_process risk_process risk_check can_trade lookup insert ◌*ℤ◌
failed_run = (refl, refl, refl, refl)

-- Yesterday's loss still blocks a buy today, as `get_stats` does not rotate the counters.
stale_loss_blocks :
    can_trade config source
      (record {
        kill = answered none;
        today = 4;
        stored =
            some (record { trades_today = 1; trades_total = 1; pnl_today = negsuc 500; date = 3 });
        open_sources = [];
      })
      (order buy Origin.strategy)
    ≡ some Reason.daily_loss_cap
unfolding can_trade ◌*ℤ◌
stale_loss_blocks = refl

risk_process-Screened_example :
    Screened config source calm actions (risk_process config source calm actions)
risk_process-Screened_example = risk_process-Screened config source calm actions

kill_switch_leaves_sells_example :
    orders (risk_process config source killed actions) ≡ sells (orders actions)
kill_switch_leaves_sells_example = kill_switch_leaves_sells config source killed actions (λ n. refl)

failed_process_doc_example :
    lookup "stop" (run fails_second closes false config source calm snapshot actions world).0.doc
    ≡ (if is_stripped "stop"
        then lookup "stop" (persisted fails_second closes false config source calm actions world)
        else over
            (lookup "stop" snapshot)
            (lookup "stop" (persisted fails_second closes false config source calm actions world)))
unfolding process prepare execution_process submit_via_http conclude persistence_process write_state
    logging_process risk_process risk_check can_trade lookup insert ◌*ℤ◌
failed_process_doc_example =
    failed_process_doc fails_second closes false config source calm snapshot actions world
      (refl, (refl, tt)) refl "stop"
