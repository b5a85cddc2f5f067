-- ===== src/Rollup/Values.antt =====
-- What the rows of ib_trader/engine/pnl_rollup.py realize, as lists of values: an account of the
-- rollup that keeps no sums.
use ib_trader.Prelude.{
  ℕ, ◌+◌, String, Bool, false, not, ◌&&◌, ◌||◌, Option, none, some, List, [], ◌∷◌, if◌then◌else◌,
  is_some, leb,
}
use ib_trader.Prelude.Text.{str_eq}
use ib_trader.Prelude.Int.{ℤ}
use ib_trader.Rollup.{session_start, Execution, Lifo, Sweep}

-- What a row realizes on a basis: the broker's figure, or for a future with LIFO results that of its
-- execution.
abbrev pub lifo_value : Option Lifo → Execution → Option ℤ
lifo_value none ex = ex.realized_pnl
lifo_value (some res) ex = if res.is_lifo then res.realized_by_exec ex.exec_id else ex.realized_pnl

abbrev pub value : Sweep → Execution → Option ℤ
value sw ex = lifo_value (if str_eq ex.sec_type "FUT" then sw.lifo ex.local_symbol else none) ex

abbrev pub ib_value : Execution → Option ℤ
ib_value ex = ex.realized_pnl

-- The contract's rows with a time, and whether they are of the last 24 hours or of the session.
abbrev pub of_contract : String → Execution → Bool
of_contract s ex = str_eq ex.local_symbol s && not (str_eq ex.local_symbol "")

abbrev pub recent : Sweep → Option ℕ → Bool
recent sw none = false
recent sw (some ts) = leb sw.now (ts + 86400)

abbrev pub since_open : Sweep → Execution → Option ℕ → Bool
since_open sw ex none = false
since_open sw ex (some ts) =
    str_eq ex.sec_type "FUT" && leb (session_start sw.now sw.session_start_hour) ts

abbrev pub cons_value : Option ℤ → List ℤ → List ℤ
cons_value none vs = vs
cons_value (some v) vs = v ∷ vs

-- The values of the last 24 hours.
unfoldable pub recent_values : Sweep → String → (Execution → Option ℤ) → List Execution → List ℤ
recent_values sw s f [] = []
recent_values sw s f (ex ∷ executions) =
    let rest = recent_values sw s f executions in
    if of_contract s ex && recent sw ex.exec_time then cons_value (f ex) rest else rest

-- What the rows of the session realize; a row on which neither basis has a value is left out.
unfoldable pub session_values : Sweep → String → List Execution → List (Option ℤ)
session_values sw s [] = []
session_values sw s (ex ∷ executions) =
    let rest = session_values sw s executions in
    if of_contract s ex
      && (since_open sw ex ex.exec_time && (is_some (value sw ex) || is_some (ib_value ex)))
    then value sw ex ∷ rest
    else rest

abbrev pub cons_some : Option ℤ → List (Option ℤ) → List (Option ℤ)
cons_some none vs = vs
cons_some (some v) vs = some v ∷ vs

unfoldable pub ib_session_values : Sweep → String → List Execution → List (Option ℤ)
ib_session_values sw s [] = []
ib_session_values sw s (ex ∷ executions) =
    let rest = ib_session_values sw s executions in
    if of_contract s ex && since_open sw ex ex.exec_time then cons_some (ib_value ex) rest else rest
