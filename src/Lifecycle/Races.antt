-- ===== src/Lifecycle/Races.antt =====
-- The position event of ib_trader/bots/runtime.py, and the pipeline's way back where it meets an entry
-- fill.
use ib_trader.Prelude.{ℕ, true, false, Option, none, some, ◌≡◌, ◌≢◌, arith}
use ib_trader.Prelude.Int.{ℤ, pos, ◌<ℤ◌, eq_of_parts}
use ib_trader.Lifecycle.Doc.{BotState, Doc, cleared_leg}
use ib_trader.Lifecycle.Control.{on_manual_close, on_ib_position_mismatch}
use ib_trader.Lifecycle.Orders.{FillEvent, on_entry_filled, revert_to_state}
use ib_trader.Lifecycle.Positions.{needs_pull, apply_position_event}

-- A position event alone. Without a drop below the tracked quantity, with a failed pull or with
-- one that agrees, nothing changes. A confirmed reduction becomes the tracked quantity in the same
-- state; one to zero, with no entry order placed, arms the bot again with its position cleared; and
-- a pull above the tracked quantity parks the bot in error.
pub position_event_effect :
    (now later : ℕ) (ib_qty : ℤ) (pull : Option ℤ) (doc : Doc)
    → let after = apply_position_event now later ib_qty pull doc in
      (needs_pull ib_qty doc ≡ false → after ≡ doc)
      × (pull ≡ none → after ≡ doc)
      × (pull ≡ some doc.leg.qty → after ≡ doc)
      × ((v : ℤ)
          → needs_pull ib_qty doc ≡ true
          → pull ≡ some v
          → (v <ℤ doc.leg.qty → v ≢ pos 0 → (after.leg.qty ≡ v) × (after.state ≡ doc.state))
            × (v <ℤ doc.leg.qty
                → v ≡ pos 0
                → doc.state ≢ BotState.entry_order_placed
                → (after.state ≡ BotState.awaiting_entry_trigger) × (after.leg ≡ cleared_leg))
            × (doc.leg.qty <ℤ v → after.state ≡ BotState.errored))
unfolding apply_position_event on_ib_position_mismatch on_manual_close
position_event_effect now later ib_qty pull doc = (
  λ h. ground arith,
  λ h. ground arith,
  λ h. ground arith,
  λ v needs h. (
    λ low some_left. ground (arith, eq_of_parts v (pos 0)),
    λ low gone held. ground (arith, eq_of_parts v (pos 0)),
    λ high. ground arith,
  ),
)

-- A pipeline that fails after its entry order was filled: the way back clears the position that
-- the fill opened, and the bot waits for an entry while it holds one.
pub revert_forgets_position :
    (t1 t2 : ℕ) (fill : FillEvent) (doc : Doc)
    → doc.state ≡ BotState.entry_order_placed
    → fill.terminal ≡ true
    → fill.qty ≢ pos 0
    → let opened = (on_entry_filled t1 fill doc).doc in
      let reverted = revert_to_state t2 BotState.awaiting_entry_trigger opened in
      (opened.state ≡ BotState.awaiting_exit_trigger)
      × (opened.leg.qty ≡ fill.qty)
      × (reverted.state ≡ BotState.awaiting_entry_trigger)
      × (reverted.leg ≡ cleared_leg)
unfolding on_entry_filled revert_to_state
revert_forgets_position t1 t2 fill doc placed final some_qty =
    ground (arith, eq_of_parts fill.qty (pos 0))
