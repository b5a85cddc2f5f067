-- ===== src/Rollup/Tests.antt =====
-- The rollup of ib_trader/engine/pnl_rollup.py with whole numbers for floats.
use ib_trader.Prelude.{none, some, List, [], ◌∷◌}
use ib_trader.Prelude.Int.{ℤ, pos, ◌+ℤ◌, eqb_ℤ}
use ib_trader.Rollup.{Execution, Sweep, FloatOps}

abbrev whole : FloatOps ℤ
whole = record {
  add = λ a b. a +ℤ b;
  zero_v = pos 0;
  is_zero = λ a. eqb_ℤ a (pos 0);
  float = λ a. a;
}

abbrev sweep : Sweep
sweep = record { now = 900000; session_start_hour = 15; lifo = λ s. none }

abbrev executions : List Execution
executions =
    record {
      exec_id = "e1";
      local_symbol = "MNQZ6";
      sec_type = "FUT";
      exec_time = some 899000;
      realized_pnl = some (pos 40);
    }
    ∷ []
