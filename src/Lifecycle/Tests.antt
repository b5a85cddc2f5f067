-- ===== src/Lifecycle/Tests.antt =====
-- The bot's lifecycle of ib_trader/bots/runtime.py at concrete documents.
use ib_trader.Prelude.{
  ℕ, ◌≤◌, ◌<◌, true, false, none, some, List, [], ◌∷◌, ◌≡◌, ◌≢◌, refl, arith, ◌⊎◌, inr,
}
use mathlib.Core.List.{foldl}
use ib_trader.Prelude.Int.{pos, ◌-ℤ◌}
use ib_trader.Lifecycle.Doc.{
  BotState, long, Side, Origin, Leg, Doc, refused, raised, cleared_leg, cleared_plan,
}
use ib_trader.Lifecycle.Orders.{Placement, FillEvent}
use ib_trader.Lifecycle.ExitFill.{ExitConfig}
use ib_trader.Lifecycle.Handle.{LifeEvent, handle}
use ib_trader.Lifecycle.Edges.{
  leads, is_start_or_revert, handle_obeys, entry, accepted, IsPlaced, accepted_at_most_one,
}
use ib_trader.Lifecycle.Exits.{exit_all, exit_ends}
use ib_trader.Lifecycle.Retries.{Exited, retries_record_rest}
use ib_trader.Lifecycle.RateLimit.{
  check_order_rate_limit, inside_window, submit_all, recent_count, submit_all_below_limit, submit,
}
use ib_trader.Lifecycle.Submit.{place_by_origin, Ending, returned, run_pipeline}
use ib_trader.Lifecycle.Aborts.{unsent_order_goes_back}

abbrev armed : Doc
armed = record {
  state = BotState.awaiting_entry_trigger;
  error_reason = none;
  error_message = none;
  symbol = some "MESM6";
  leg = cleared_leg;
  plan = record (cleared_plan) { entry_line = some "L1" };
  track = record {
    avg_price = none;
    order_origin = none;
    exit_retries = 0;
    trail_reset_count = 0;
    entry_serial = none;
    entry_ib_order_id = none;
    last_realized_pnl = none;
    cooldown_until = none;
  };
  updated_at = 0;
}

abbrev placement : Placement
placement = record {
  symbol = some "MESM6";
  qty = pos 5;
  origin = Origin.strategy;
  ib_order_id = some "__pending__";
  serial = some 7;
}

-- A long position of 5, bought at 100.
abbrev held : Leg
held = record {
  qty = pos 5;
  entry_price = some (pos 100);
  entry_time = some 3;
  serial = some 7;
  ib_order_id = some "41";
  awaiting_ib_order_id = none;
  high_water_mark = some (pos 100);
  current_stop = none;
  trail_activated = false;
  order_qty = some (pos 5);
  filled_qty = pos 0;
}

abbrev leaving_doc : Doc
leaving_doc = record armed {
  state = BotState.exit_order_placed;
  leg = held;
  plan = record (cleared_plan) { position_direction = some long };
}

abbrev bought : FillEvent
bought = record { qty = pos 5; price = pos 100; terminal = true; side = Side.buy }

abbrev sold : ℕ → FillEvent
sold n = record { qty = pos n; price = pos 110; terminal = true; side = Side.sell }

abbrev config : ExitConfig
config = record { contract_multiplier = pos 5; stop_on_exit = false; cooldown_seconds = 60 }

abbrev stopping : ExitConfig
stopping = record { contract_multiplier = pos 5; stop_on_exit = true; cooldown_seconds = 60 }

abbrev one_trade : List (ℕ × LifeEvent)
one_trade =
    (1, LifeEvent.places_entry placement)
    ∷ (2, LifeEvent.captures_id "41")
    ∷ (3, LifeEvent.writes_fields (record armed.leg { qty = pos 2 }) armed.plan armed.track)
    ∷ (3, LifeEvent.entry_fills bought)
    ∷ (4, LifeEvent.places_exit placement)
    ∷ (5, LifeEvent.exit_fills stopping (sold 5))
    ∷ []

abbrev short_fills : List (ℕ × FillEvent)
short_fills = (1, sold 1) ∷ (2, sold 1) ∷ (3, sold 1) ∷ (4, sold 1) ∷ []

-- The pipeline drops the order, or fails.
abbrev dropping : Doc → Doc × Ending
dropping doc = (doc, returned none)

handle_obeys_example :
    let e = LifeEvent.exit_fills config (sold 2) in
    let out = handle 9 e leaving_doc in
    ((out.doc.state ≡ leaving_doc.state) ⊎ (leads e leaving_doc.state out.doc.state ≡ true))
    × (leaving_doc.state ≡ BotState.errored
        → is_start_or_revert e ≡ false
        → (out.doc.state ≡ BotState.errored) ⊎ (out.doc.state ≡ BotState.off))
    × (out.answer ≡ refused → out.doc ≡ leaving_doc)
    × (out.answer ≡ raised → out.doc ≡ leaving_doc)
handle_obeys_example = handle_obeys 9 (LifeEvent.exit_fills config (sold 2)) leaving_doc

accepted_at_most_one_example :
    (accepted ((1, entry placement) ∷ (2, entry placement) ∷ []) armed ≤ 1)
    × (IsPlaced armed.state → accepted ((1, entry placement) ∷ (2, entry placement) ∷ []) armed ≡ 0)
accepted_at_most_one_example =
    accepted_at_most_one ((1, entry placement) ∷ (2, entry placement) ∷ []) armed

-- Two of five are sold at 110 and ordered again, then the other three.
retries_record_rest_example :
    Exited long (pos 100) config ((8, sold 2) ∷ []) (9, sold 3) leaving_doc
unfolding ◌-ℤ◌
retries_record_rest_example =
    retries_record_rest long (pos 100) config ((8, sold 2) ∷ []) 9 (sold 3) leaving_doc
      (refl, refl, refl) (ground arith) (ground arith) (refl, ground arith, tt) refl (ground arith)

exit_ends_example : (exit_all config short_fills leaving_doc).state ≢ BotState.exit_order_placed
exit_ends_example =
    exit_ends config short_fills leaving_doc (refl, (refl, (refl, (refl, tt)))) (ground arith)

submit_all_below_limit_example : recent_count 25 10 (foldl (λ h t. t ∷ h) [] (1 ∷ 2 ∷ 20 ∷ [])) < 3
unfolding submit_all submit check_order_rate_limit inside_window
submit_all_below_limit_example =
    submit_all_below_limit 3 10 (1 ∷ 2 ∷ 20 ∷ []) {ring = 20 ∷ []} (ground arith)
      (ground arith, (ground arith, (ground arith, tt))) refl 25 (ground arith)

unsent_order_goes_back_example :
    let final = (run_pipeline 9 dropping (placement ∷ []) armed).0 in
    (final.state ≡ armed.state)
    × (final.leg.awaiting_ib_order_id ≡ none)
    × (final.leg.order_qty ≡ none)
    × (final.leg.filled_qty ≡ pos 0)
    × (armed.state ≡ BotState.awaiting_entry_trigger → final.leg ≡ cleared_leg)
    × (armed.state ≡ BotState.awaiting_exit_trigger
        → final.leg.ib_order_id
          ≡ (dropping (place_by_origin 9 placement armed).doc).0.leg.ib_order_id)
unsent_order_goes_back_example =
    unsent_order_goes_back 9 dropping placement armed (inr (ground arith, refl)) (inr refl)
