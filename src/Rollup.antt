-- ===== src/Rollup.antt =====
-- ib_trader/engine/pnl_rollup.py: the realized P&L of each contract. What a float does is a
-- parameter: its sum, its zero and the conversion of a Decimal. Times are seconds of the local clock.
use ib_trader.Prelude.{
  ℕ, ◌+◌, ◌-◌, ◌*◌, ◌%◌, String, Bool, true, false, not, ◌&&◌, ◌||◌, Option, none, some, List, [],
  ◌∷◌, if◌then◌else◌, is_some, ltb, leb,
}
use ib_trader.Prelude.Text.{str_eq}
use ib_trader.Prelude.Dict.{Dict, lookup, insert}
use ib_trader.Prelude.Unique.{kept}
use ib_trader.Prelude.Int.{ℤ}
pub mod Slots
pub mod Values
pub mod Rows
pub mod Totals
mod Tests

-- The last time of day `session_start_hour`; the offset of `now` is fixed, so a day has 86400 seconds.
unfoldable pub session_start : ℕ → ℕ → ℕ
session_start now session_start_hour =
    let anchor = now - now % 86400 + session_start_hour * 3600 in
    if ltb now anchor then anchor - 86400 else anchor

-- The symbol without blanks around it, the type in capitals.
pub record Execution : Type 0 where
  pub exec_id : String
  pub local_symbol : String
  pub sec_type : String
  pub exec_time : Option ℕ
  pub realized_pnl : Option ℤ

-- What `LifoResult` has for the rollup: whether its method is "lifo", and `realized_by_exec`.
pub record Lifo : Type 0 where
  pub is_lifo : Bool
  pub realized_by_exec : String → Option ℤ

-- What the sums use of float.
pub record FloatOps (V : Type 0) : Type 0 where
  pub add : V → V → V
  pub zero_v : V
  pub is_zero : V → Bool
  pub float : ℤ → V

-- The two sums of one basis.
pub record Sums (V : Type 0) : Type 0 where
  pub rolling : V
  pub session : Option V

pub record Slot (V : Type 0) : Type 0 where
  pub pnl : Sums V
  pub ib_pnl : Sums V
  pub is_lifo : Bool
  pub sec_type : String

-- When a sweep is, and the LIFO results that it is given.
pub record Sweep : Type 0 where
  pub now : ℕ
  pub session_start_hour : ℕ
  pub lifo : String → Option Lifo

abbrev pub is_fut : Execution → Bool
is_fut ex = str_eq ex.sec_type "FUT"

abbrev pub lifo_of : Sweep → Execution → Option Lifo
lifo_of sw ex = if is_fut ex then sw.lifo ex.local_symbol else none

abbrev pub use_lifo : Option Lifo → Bool
use_lifo none = false
use_lifo (some res) = res.is_lifo

abbrev pub pnl_of : Option Lifo → Execution → Option ℤ
pnl_of none ex = ex.realized_pnl
pnl_of (some res) ex = if res.is_lifo then res.realized_by_exec ex.exec_id else ex.realized_pnl

abbrev pub in_session : Sweep → Execution → ℕ → Bool
in_session sw ex ts = is_fut ex && leb (session_start sw.now sw.session_start_hour) ts

abbrev pub in_24h : Sweep → ℕ → Bool
in_24h sw ts = leb sw.now (ts + 86400)

module _ {V : Type 0} (ops : FloatOps V) where
  abbrev pub no_sums : Sums V
  no_sums = record { rolling = ops.zero_v; session = none }

  abbrev pub or_zero : Option V → V
  or_zero none = ops.zero_v
  or_zero (some v) = if ops.is_zero v then ops.zero_v else v

  abbrev pub add_sums : Bool → Bool → Option ℤ → Sums V → Sums V
  add_sums recent session none s = s
  add_sums recent session (some val) s = record {
    rolling = if recent then ops.add s.rolling (ops.float val) else s.rolling;
    session = if session then some (ops.add (or_zero s.session) (ops.float val)) else s.session;
  }

  -- A close of the session marks it, whichever basis has its P&L.
  abbrev pub mark_session : Bool → Sums V → Sums V
  mark_session session s =
      if session && not (is_some s.session) then record s { session = some ops.zero_v } else s

  abbrev pub opened_slot : Sweep → Execution → Option (Slot V) → Slot V
  opened_slot sw ex none = record {
    pnl = no_sums;
    ib_pnl = no_sums;
    is_lifo = use_lifo (lifo_of sw ex);
    sec_type = ex.sec_type;
  }
  opened_slot sw ex (some slot) = slot

  abbrev pub book : Sweep → Execution → ℕ → Slot V → Slot V
  book sw ex ts slot =
      let session = in_session sw ex ts in
      record slot {
        pnl =
            mark_session session
              (add_sums (in_24h sw ts) session (pnl_of (lifo_of sw ex) ex) slot.pnl);
        ib_pnl = add_sums (in_24h sw ts) session ex.realized_pnl slot.ib_pnl;
      }

  -- The slot of a row that counts, after it; a row without a time, a symbol or a P&L does not.
  abbrev pub counted : Sweep → Execution → Option ℕ → Option (Slot V) → Option (Slot V)
  counted sw ex none slot = none
  counted sw ex (some ts) slot =
      if str_eq ex.local_symbol ""
        || not (is_some (pnl_of (lifo_of sw ex) ex)) && not (is_some ex.realized_pnl)
      then none
      else some (book sw ex ts (opened_slot sw ex slot))

  abbrev pub write : String → Option (Slot V) → Dict (Slot V) → Dict (Slot V)
  write sym none rollup = rollup
  write sym (some slot) rollup = insert sym slot rollup

  unfoldable pub roll_up : Sweep → List Execution → Dict (Slot V) → Dict (Slot V)
  roll_up sw [] rollup = rollup
  roll_up sw (ex ∷ executions) rollup =
      roll_up sw executions
        (write ex.local_symbol (counted sw ex ex.exec_time (lookup ex.local_symbol rollup)) rollup)

  abbrev pub has_signal : Slot V → Bool
  has_signal v =
      not (ops.is_zero v.pnl.rolling) || is_some v.pnl.session || not (ops.is_zero v.ib_pnl.rolling)

  unfoldable pub compute_pnl_rollup : Sweep → List Execution → Dict (Slot V)
  compute_pnl_rollup sw executions = kept has_signal (roll_up sw executions [])
