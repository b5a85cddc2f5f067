-- ===== src/Executions/Tests.antt =====
-- The accumulator of ib_trader/engine/exec_accumulator.py over two sweeps.
use ib_trader.Prelude.{String, Option, none, some, List, [], ◌∷◌, ◌≡◌, refl}
use ib_trader.Prelude.Dict.{Dict, lookup, insert}
use ib_trader.Prelude.Int.{ℤ, pos, ◌-ℤ◌}
use ib_trader.Executions.{
  Row, Record, to_record, upsert, merge_rows, prune, merge_executions, stored_after, Sweep, window,
  sweep_all,
}
use ib_trader.Executions.Final.{Keeps, sweep_all-Keeps}

abbrev row : String → Option ℤ → Row
row id pnl = record {
  exec_id = id;
  local_symbol = "MNQZ6";
  side = "BOT";
  price = some (pos 21000);
  shares = some (pos 2);
  exec_time = some (pos 100000);
  realized_pnl = pnl;
  commission = none;
  multiplier = some "2";
}

abbrev entry : Option ℤ → Record
entry pnl = record {
  local_symbol = "MNQZ6";
  side = "BOT";
  price = some (pos 21000);
  shares = some (pos 2);
  exec_time = pos 100000;
  realized_pnl = pnl;
  commission = none;
  multiplier = some "2";
}

abbrev stored : Dict Record
stored = ("e1", entry none) ∷ []

abbrev fresh : List Row
fresh = row "e1" (some (pos 40)) ∷ row "e2" none ∷ []

abbrev now : ℤ
now = pos 100300

-- The report that pairs is taken, and the caller's own record has changed with it.
stored_is_mutated :
    stored_after stored (merge_executions stored fresh now (pos 0) window)
    ≡ ("e1", entry (some (pos 40))) ∷ []
unfolding stored_after merge_executions lookup prune merge_rows to_record insert ◌-ℤ◌ upsert
stored_is_mutated = refl

abbrev sweeps : List Sweep
sweeps =
    record { fresh = row "e1" (some (pos 99)) ∷ []; now = pos 100400; host_offset = pos 0 }
    ∷ record { fresh = []; now = pos 150000; host_offset = pos 0 }
    ∷ []

abbrev paired_store : Dict Record
paired_store = ("e1", entry (some (pos 40))) ∷ []

sweep_all-Keeps_example :
    Keeps (entry (some (pos 40))) (lookup "e1" (sweep_all sweeps paired_store))
unfolding lookup ◌-ℤ◌
sweep_all-Keeps_example =
    sweep_all-Keeps sweeps paired_store "e1" (entry (some (pos 40))) (refl, tt)
      (refl, refl, refl, refl, λ (p : ℤ) (h : some (pos 40) ≡ some p). h) (refl, (refl, tt))
