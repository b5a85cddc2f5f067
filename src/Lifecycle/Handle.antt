-- ===== src/Lifecycle/Handle.antt =====
-- The calls that write the document of a bot in ib_trader/bots/runtime.py, as events: the handlers,
-- the way back of `_run_pipeline`, the position event, the reset, and the writes that keep the
-- state (`_write_state`, the pipeline's own writes with their rollback, `_apply_fill`), whose
-- fields are arbitrary.
use ib_trader.Prelude.{ℕ, String, Bool, Option, []}
use ib_trader.Prelude.Int.{ℤ}
use ib_trader.Lifecycle.Doc.{
  ErrorReason, Doc, Outcome, in_state, force_off_state, Leg, Plan, Track, BotState,
}
use ib_trader.Lifecycle.Control.{
  on_start, on_stop, on_force_stop, on_crash, on_ib_position_mismatch, on_entry_timeout,
  on_manual_close, on_entry_cancelled, on_exit_cancelled,
}
use ib_trader.Lifecycle.Orders.{
  Placement, on_place_entry_order, on_place_exit_order, FillEvent, on_entry_filled,
  capture_order_id, revert_to_state,
}
use ib_trader.Lifecycle.ExitFill.{ExitConfig, on_exit_filled}
use ib_trader.Lifecycle.Positions.{apply_position_event}

pub data LifeEvent : Type 0 where
  starts force_stops crashes mismatches : Option String → LifeEvent
  stops : Bool → LifeEvent
  entry_times_out manually_closes entry_cancels exit_cancels : LifeEvent
  places_entry places_exit : Placement → LifeEvent
  entry_fills : FillEvent → LifeEvent
  exit_fills : ExitConfig → FillEvent → LifeEvent
  captures_id : String → LifeEvent
  resets : Option ErrorReason → LifeEvent
  reverts : BotState → LifeEvent
  position_changes : ℕ → ℤ → Option ℤ → LifeEvent
  writes_fields : Leg → Plan → Track → LifeEvent

abbrev silent : Doc → Outcome
silent doc = record { doc = doc; effects = []; answer = in_state doc.state }

unfoldable pub handle : ℕ → LifeEvent → Doc → Outcome
handle now (starts symbol) doc = on_start now symbol doc
handle now (force_stops message) doc = on_force_stop now message doc
handle now (crashes message) doc = on_crash now message doc
handle now (mismatches message) doc = on_ib_position_mismatch now message doc
handle now (stops cancel_ok) doc = on_stop now cancel_ok doc
handle now entry_times_out doc = on_entry_timeout now doc
handle now manually_closes doc = on_manual_close now doc
handle now entry_cancels doc = on_entry_cancelled now doc
handle now exit_cancels doc = on_exit_cancelled now doc
handle now (places_entry p) doc = on_place_entry_order now p doc
handle now (places_exit p) doc = on_place_exit_order now p doc
handle now (entry_fills fill) doc = on_entry_filled now fill doc
handle now (exit_fills config fill) doc = on_exit_filled now config fill doc
handle now (captures_id id) doc = silent (capture_order_id now id doc)
handle now (resets reason) doc = silent (force_off_state now reason doc)
handle now (reverts prior) doc = silent (revert_to_state now prior doc)
handle now (position_changes later ib_qty pull) doc =
    silent (apply_position_event now later ib_qty pull doc)
handle now (writes_fields leg plan track) doc =
    silent (record doc { leg = leg; plan = plan; track = track; updated_at = now })
