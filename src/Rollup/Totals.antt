-- ===== src/Rollup/Totals.antt =====
-- The sums of ib_trader/engine/pnl_rollup.py, against sums over lists of values.
use ib_trader.Prelude.{String, true, Option, none, some, List, ◌≡◌}
use ib_trader.Rollup.{Execution, Sweep, FloatOps, Slot}
use ib_trader.Rollup.Values.{value, ib_value, recent_values, session_values, ib_session_values}
use ib_trader.Rollup.Rows.{total, session_total}

module _ {V : Type 0} (ops : FloatOps V) where
  -- What the rollup shows of a contract, a slot with the sums or none without a signal.
  abbrev pub IsTotal : Sweep → String → List Execution → Option (Slot V) → Type 0
  IsTotal sw s executions none =
      (ops.is_zero (total ops ops.zero_v (recent_values sw s (value sw) executions)) ≡ true)
      × (session_total ops none (session_values sw s executions) ≡ none)
      × (ops.is_zero (total ops ops.zero_v (recent_values sw s ib_value executions)) ≡ true)
  IsTotal sw s executions (some slot) =
      (slot.pnl.rolling ≡ total ops ops.zero_v (recent_values sw s (value sw) executions))
      × (slot.pnl.session ≡ session_total ops none (session_values sw s executions))
      × (slot.ib_pnl.rolling ≡ total ops ops.zero_v (recent_values sw s ib_value executions))
      × (slot.ib_pnl.session ≡ session_total ops none (ib_session_values sw s executions))
