-- ===== src/Cancel.antt =====
-- A partly filled order in ib_trader/engine/order.py: `_cancel_and_await_resolution`,
-- `_finalize_partial_cancel` and `_handle_partial`.
use ib_trader.Prelude.{Bool, true, false, ◌||◌, Option, none, some, List, [], ◌∷◌, if◌then◌else◌}
use ib_trader.Prelude.Int.{ℤ, ltb_ℤ, leb_ℤ}
use ib_trader.SmartMarket.{IbStatus, is_cancelled}
pub mod Verdict
mod Tests

pub record Status : Type 0 where
  pub qty_filled : ℤ
  pub avg_fill_price : Option ℤ
  pub commission : ℤ
  pub ib_status : IbStatus

-- One round of the wait: the order's status, and `track.is_canceled` (false without a track).
pub record Poll : Type 0 where
  pub status : Status
  pub canceled : Bool

pub data Resolution : Type 0 where
  filled : Resolution
  cancelled : Resolution
  timeout : Resolution

abbrev pub is_full : ℤ → Poll → Bool
is_full target p = leb_ℤ target p.status.qty_filled

abbrev pub is_ended : Poll → Bool
is_ended p = is_cancelled p.status.ib_status || p.canceled

-- The rounds until the deadline, and the status that is read after it.
unfoldable pub await_resolution : ℤ → List Poll → Status → Resolution × Status
await_resolution target [] last = (timeout, last)
await_resolution target (p ∷ polls) last =
    let rest = await_resolution target polls last in
    if is_full target p
    then (filled, p.status)
    else (if is_ended p then (cancelled, p.status) else rest)

-- The rows that are written, in order.
pub data Row : Type 0 where
  cancel_attempt : Row
  partial_fill : ℤ → ℤ → ℤ → Row
  cancelled_row : Row

-- What becomes of the order: `_handle_fill` takes it, or it stays partial, with its rows and whether
-- the catastrophic alert was raised.
pub data Handled : Type 0 where
  promoted : ℤ → ℤ → ℤ → Handled
  partial : List Row → Bool → Handled

-- Whether the row is written. The probe is `none` where it fails or the client has none.
abbrev pub cancel_written : Resolution → Option Bool → Bool
cancel_written filled probe = false
cancel_written cancelled probe = true
cancel_written timeout (some false) = true
cancel_written timeout (some true) = false
cancel_written timeout none = false

-- `_finalize_partial_cancel`: the rows that it adds, and whether it raises the alert.
abbrev pub finalize_partial_cancel : Resolution → Option Bool → List Row × Bool
finalize_partial_cancel resolution probe =
    if cancel_written resolution probe then (cancelled_row ∷ [], false) else ([], true)

-- The status may lag what the caller has seen already: the larger quantity counts, with its price.
abbrev pub final_avg : ℤ → Option ℤ → ℤ
final_avg avg none = avg
final_avg avg (some reported) = reported

abbrev pub final_fill : ℤ → ℤ → Status → ℤ × ℤ
final_fill qty_filled avg_price s =
    if ltb_ℤ qty_filled s.qty_filled
    then (s.qty_filled, final_avg avg_price s.avg_fill_price)
    else (qty_filled, avg_price)

abbrev pub final_commission : ℤ → Status → ℤ
final_commission commission s = if ltb_ℤ commission s.commission then s.commission else commission

abbrev pub finish : Resolution → Option Bool → ℤ × ℤ → ℤ → Handled
finish filled probe (qty, avg) commission = promoted qty avg commission
finish cancelled probe (qty, avg) commission =
    let (rows, alert) = finalize_partial_cancel cancelled probe in
    partial (cancel_attempt ∷ partial_fill qty avg commission ∷ rows) alert
finish timeout probe (qty, avg) commission =
    let (rows, alert) = finalize_partial_cancel timeout probe in
    partial (cancel_attempt ∷ partial_fill qty avg commission ∷ rows) alert

unfoldable pub handle_partial : ℤ → ℤ → ℤ → ℤ → List Poll → Status → Option Bool → Handled
unfolding await_resolution
handle_partial qty_requested qty_filled avg_price commission polls last probe =
    let (resolution, s) = await_resolution qty_requested polls last in
    finish resolution probe (final_fill qty_filled avg_price s) (final_commission commission s)
