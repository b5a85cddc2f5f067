-- ===== src/Executions/Final.antt =====
-- What the accumulator of ib_trader/engine/exec_accumulator.py never changes of an execution.
use ib_trader.Prelude.{
  String, true, false, not, ◌&&◌, Option, none, some, List, [], ◌∷◌, is_some, Bool-cases, All, ◌≡◌,
  inl, inr,
}
use ib_trader.Prelude.Text.{str_eq}
use ib_trader.Prelude.Dict.{Dict, lookup}
use ib_trader.Prelude.Unique.{IsUnique}
use ib_trader.Prelude.Int.{ℤ, ◌-ℤ◌}
use ib_trader.Executions.{
  Row, Record, to_record, upsert, is_recent, merge_executions, Sweep, window, sweep_all,
}
use ib_trader.Executions.Merge.{seen, history, in_window, merge_executions-lookup}

-- The fill is the one that was first seen, and a realized P&L once known is final.
abbrev pub Keeps : Record → Option Record → Type 0
Keeps old none = ⊥
Keeps old (some r) =
    (r.price ≡ old.price)
    × (r.shares ≡ old.shares)
    × (r.side ≡ old.side)
    × (r.exec_time ≡ old.exec_time)
    × ((p : ℤ) → old.realized_pnl ≡ some p → r.realized_pnl ≡ some p)

upsert-Keeps :
    (now offset : ℤ) (old prev rec : Record)
    → Keeps old (some prev)
    → Keeps old (some (upsert now offset (some prev) rec))
unfolding upsert
upsert-Keeps now offset old prev rec (price, shares, side, time, pnl) =
    elim (Bool-cases (not (is_some prev.realized_pnl) && is_some rec.realized_pnl)) [
      | inl e ↦ rw e (
        price,
        shares,
        side,
        time,
        λ (p : ℤ) (h : old.realized_pnl ≡ some p).
            let bad : false ≡ true = rw (pnl p h) at e in cc bad,
      )
      | inr e ↦ rw e (price, shares, side, time, pnl)
    ]

history-Keeps :
    (now offset : ℤ) (k : String) (old : Record) (fresh : List Row) (o : Option Record)
    → Keeps old o
    → Keeps old (history now offset k fresh o)
unfolding history
history-Keeps now offset k old [] o h = h
history-Keeps now offset k old (ex ∷ fresh) none h = absurd h
history-Keeps now offset k old (ex ∷ fresh) (some prev) h =
    elim (Bool-cases (str_eq ex.exec_id k)) [
      | inl e ↦ rw e (
          history-Keeps now offset k old fresh (seen now offset (some prev) (to_record ex))
            (one (to_record ex)))
      | inr e ↦ rw e (history-Keeps now offset k old fresh (some prev) h)
    ]
  where
    one : (o : Option Record) → Keeps old (seen now offset (some prev) o)
    one none = h
    one (some rec) = upsert-Keeps now offset old prev rec h

window-Keeps :
    (cutoff : ℤ) (old : Record) (o : Option Record)
    → is_recent cutoff old ≡ true
    → Keeps old o
    → Keeps old (in_window cutoff o)
window-Keeps cutoff old none e h = h
window-Keeps cutoff old (some r) e h = let now : is_recent cutoff r ≡ true = rw h.3 e in rw now h

-- An execution that was stored once stays, with its price, its shares, its side and its time, and with
-- its realized P&L if that was known, over any number of later sweeps, whatever these report of it or
-- leave out, as long as its time is in the window of each of them.
pub sweep_all-Keeps :
    (sweeps : List Sweep) (stored : Dict Record) (k : String) (old : Record)
    → IsUnique stored
    → Keeps old (lookup k stored)
    → All (λ (s : Sweep). is_recent (s.now -ℤ window) old ≡ true) sweeps
    → Keeps old (lookup k (sweep_all sweeps stored))
unfolding sweep_all
sweep_all-Keeps [] stored k old unique h _ = h
sweep_all-Keeps (s ∷ sweeps) stored k old unique h (e, es) =
    let merged = merge_executions-lookup stored s.fresh s.now s.host_offset window k unique in
    sweep_all-Keeps sweeps (merge_executions stored s.fresh s.now s.host_offset window) k old
      merged.1
      (rw merged.0 (
        window-Keeps (s.now -ℤ window) old (history s.now s.host_offset k s.fresh (lookup k stored))
          e (history-Keeps s.now s.host_offset k old s.fresh (lookup k stored) h)))
      es
