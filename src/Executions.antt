-- ===== src/Executions.antt =====
-- ib_trader/engine/exec_accumulator.py: every execution that was seen, by its id. Times are seconds
-- of the epoch, so texts in ISO format compare as they do; a time that is no such text is left out.
use ib_trader.Prelude.{
  String, Bool, true, false, not, ◌&&◌, ◌||◌, Option, none, some, List, [], ◌∷◌, if◌then◌else◌,
  is_some, select,
}
use ib_trader.Prelude.Text.{str_eq}
use ib_trader.Prelude.Dict.{Dict, lookup, insert}
use ib_trader.Prelude.Int.{ℤ, pos, ◌+ℤ◌, ◌-ℤ◌, ltb_ℤ, leb_ℤ, eqb_ℤ}
pub mod Merge
pub mod Final
mod Tests

-- A row of the broker; what may be missing is an option.
pub record Row : Type 0 where
  pub exec_id : String
  pub local_symbol : String
  pub side : String
  pub price : Option ℤ
  pub shares : Option ℤ
  pub exec_time : Option ℤ
  pub realized_pnl : Option ℤ
  pub commission : Option ℤ
  pub multiplier : Option String

pub record Record : Type 0 where
  pub local_symbol : String
  pub side : String
  pub price : Option ℤ
  pub shares : Option ℤ
  pub exec_time : ℤ
  pub realized_pnl : Option ℤ
  pub commission : Option ℤ
  pub multiplier : Option String

-- `None if ... in (None, "")`
abbrev pub or_missing : Option String → Option String
or_missing none = none
or_missing (some t) = if str_eq t "" then none else some t

abbrev pub record_at : Row → ℤ → Record
record_at ex ts = record {
  local_symbol = ex.local_symbol;
  side = ex.side;
  price = ex.price;
  shares = ex.shares;
  exec_time = ts;
  realized_pnl = ex.realized_pnl;
  commission = ex.commission;
  multiplier = or_missing ex.multiplier;
}

abbrev pub timed : Row → Option ℤ → Option Record
timed ex none = none
timed ex (some ts) = some (record_at ex ts)

-- A row without an id, a symbol or a time is skipped.
unfoldable pub to_record : Row → Option Record
to_record ex =
    if str_eq ex.exec_id "" || str_eq ex.local_symbol "" then none else timed ex ex.exec_time

-- A time in the future is off by the offset of the host, in seconds; the grace is two minutes.
abbrev pub future_grace : ℤ
future_grace = pos 120

abbrev pub deshift_time : ℤ → ℤ → ℤ → ℤ
deshift_time ts now host_offset = if ltb_ℤ (now +ℤ future_grace) ts then ts +ℤ host_offset else ts

abbrev pub is_zero : Option ℤ → Bool
is_zero none = true
is_zero (some v) = eqb_ℤ v (pos 0)

abbrev pub or_stored : Option ℤ → Option ℤ → Option ℤ
or_stored none stored = stored
or_stored (some v) stored = some v

-- The commission report has paired since the fill was first seen.
abbrev pub paired : Record → Record → Record
paired prev rec = record prev {
  realized_pnl = rec.realized_pnl;
  commission = or_stored rec.commission prev.commission;
}

abbrev pub completed : Record → Record → Record
completed prev rec = record prev {
  commission =
      if is_zero prev.commission && not (is_zero rec.commission)
      then rec.commission
      else prev.commission;
  multiplier =
      if not (is_some prev.multiplier) && is_some rec.multiplier
      then rec.multiplier
      else prev.multiplier;
}

-- What the store holds of an execution after another row of it.
unfoldable pub upsert : ℤ → ℤ → Option Record → Record → Record
upsert now host_offset none rec = record rec {
  exec_time = deshift_time rec.exec_time now host_offset;
}
upsert now host_offset (some prev) rec =
    if not (is_some prev.realized_pnl) && is_some rec.realized_pnl
    then paired prev rec
    else completed prev rec

abbrev pub merge_record : ℤ → ℤ → String → Option Record → Dict Record → Dict Record
merge_record now host_offset id none out = out
merge_record now host_offset id (some rec) out =
    insert id (upsert now host_offset (lookup id out) rec) out

unfoldable pub merge_rows : ℤ → ℤ → List Row → Dict Record → Dict Record
merge_rows now host_offset [] out = out
merge_rows now host_offset (ex ∷ fresh) out =
    merge_rows now host_offset fresh (merge_record now host_offset ex.exec_id (to_record ex) out)

abbrev pub is_recent : ℤ → Record → Bool
is_recent cutoff r = leb_ℤ cutoff r.exec_time

unfoldable pub prune : ℤ → Dict Record → Dict Record
prune cutoff = select (λ (p : String × Record). is_recent cutoff p.1)

-- `merge_executions(stored, fresh, now, window)`: the new map.
unfoldable pub merge_executions : Dict Record → List Row → ℤ → ℤ → ℤ → Dict Record
merge_executions stored fresh now host_offset window =
    prune (now -ℤ window) (merge_rows now host_offset fresh stored)

-- What the caller's map holds afterwards: `dict(stored)` is a shallow copy, so a record of it that is
-- brought up to date is so in the caller's map as well.
unfoldable pub stored_after : Dict Record → Dict Record → Dict Record
stored_after [] out = []
stored_after ((id, r) ∷ stored) out =
    elim (lookup id out) [ none ↦ (id, r) | some new ↦ (id, new) ] ∷ stored_after stored out

-- One sweep of `_pnl_rollup_loop`: what the broker reports, and the clock.
pub record Sweep : Type 0 where
  pub fresh : List Row
  pub now : ℤ
  pub host_offset : ℤ

-- `window_hours=24.0`
abbrev pub window : ℤ
window = pos 86400

-- The loop of the engine: each sweep loads what the one before saved.
unfoldable pub sweep_all : List Sweep → Dict Record → Dict Record
sweep_all [] stored = stored
sweep_all (s ∷ sweeps) stored =
    sweep_all sweeps (merge_executions stored s.fresh s.now s.host_offset window)
