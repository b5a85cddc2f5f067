-- ===== src/Cancel/Tests.antt =====
-- A partly filled order of ib_trader/engine/order.py: 12 of 19 at 10.00.
use ib_trader.Prelude.{
  Bool, true, false, Option, none, some, List, [], ◌∷◌, ◌≡◌, ◌≢◌, ◌↔◌, ◌⊎◌, refl,
}
use ib_trader.Prelude.Int.{ℤ, pos}
use ib_trader.SmartMarket.{live}
use ib_trader.Cancel.{
  Status, Poll, filled, cancelled, timeout, await_resolution, cancel_attempt, partial_fill,
  cancelled_row, partial, handle_partial,
}
use ib_trader.Cancel.Verdict.{
  Race, is_promoted, is_alert, is_cancelled_written, handle_partial_verdict,
}

abbrev status : ℤ → Status
status qty = record {
  qty_filled = qty;
  avg_fill_price = some (pos 1000);
  commission = pos 1;
  ib_status = live;
}

abbrev polls : List Poll
polls =
    record { status = status (pos 12); canceled = false }
    ∷ record { status = status (pos 15); canceled = true }
    ∷ []

handle_partial_verdict_example :
    let h = handle_partial (pos 19) (pos 12) (pos 1000) (pos 1) polls (status (pos 15)) none in
    ((is_promoted h ≡ true) ↔ Race (pos 19) polls filled)
    × ((is_cancelled_written h ≡ true) ↔ (
        Race (pos 19) polls cancelled
        ⊎ (Race (pos 19) polls timeout × (◌≡◌ {A = Option Bool} none (some false)))))
    × ((is_alert h ≡ true)
        ↔ (Race (pos 19) polls timeout × (◌≢◌ {A = Option Bool} none (some false))))
handle_partial_verdict_example =
    handle_partial_verdict (pos 19) (pos 12) (pos 1000) (pos 1) polls (status (pos 15)) none

-- The cancel lost the race while no round saw it: the status after the deadline is full, and the
-- order is recorded as partial and cancelled all the same.
full_at_deadline :
    handle_partial (pos 19) (pos 12) (pos 1000) (pos 1) [] (status (pos 19)) (some false)
    ≡ partial (cancel_attempt ∷ partial_fill (pos 19) (pos 1000) (pos 1) ∷ cancelled_row ∷ []) false
unfolding handle_partial await_resolution
full_at_deadline = refl
