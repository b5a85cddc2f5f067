-- ===== src/Lifecycle/Positions.antt =====
-- `_apply_position_event` of ib_trader/bots/runtime.py: what the broker's position says against the
-- tracked quantity. The pull at the broker is awaited between the read and the write of the
-- document, so both halves are functions of their own.
use ib_trader.Prelude.{ℕ, Bool, true, false, Option, none, some, if◌then◌else◌}
use ib_trader.Prelude.Int.{ℤ, pos, abs_ℤ, eqb_ℤ, ltb_ℤ, leb_ℤ}
use ib_trader.Lifecycle.Doc.{BotState, Doc}
use ib_trader.Lifecycle.Control.{on_manual_close, on_ib_position_mismatch}

abbrev pub is_tracking : BotState → Bool
is_tracking BotState.off = false
is_tracking BotState.errored = false
is_tracking BotState.awaiting_entry_trigger = false
is_tracking _ = true

-- Before the pull: does the push say that the position dropped?
unfoldable pub needs_pull : ℤ → Doc → Bool
needs_pull ib_qty existing =
    if is_tracking existing.state
    then (if leb_ℤ existing.leg.qty (pos (abs_ℤ ib_qty)) then false else true)
    else false

-- After the pull. `existing` is the document that was read before it, `current` the one that is
-- stored now; the write of a reduction puts the whole of `existing` back. `now` is the time of the
-- write, `later` that of the handler called after it.
unfoldable pub after_pull : ℕ → ℕ → Option ℤ → Doc → Doc → Doc
after_pull now later none existing current = current
after_pull now later (some verified) existing current =
    if eqb_ℤ verified existing.leg.qty
    then current
    else if ltb_ℤ verified existing.leg.qty
    then (let reduced = record existing {
      leg = record (existing.leg) { qty = verified };
      updated_at = now;
    } in
        if eqb_ℤ verified (pos 0) then (on_manual_close later reduced).doc else reduced)
    else (on_ib_position_mismatch later (some "unexpected increase") current).doc

-- The event when nothing else writes the document during the pull.
unfoldable pub apply_position_event : ℕ → ℕ → ℤ → Option ℤ → Doc → Doc
unfolding needs_pull after_pull
apply_position_event now later ib_qty verified doc =
    if needs_pull ib_qty doc then after_pull now later verified doc doc else doc
