-- ===== src/Ledger/Keyed.antt =====
-- The well-formedness of the ledger of ib_trader/engine/order_ledger.py: every entry stands under
-- its own order id. Each operation keeps it.
use ib_trader.Prelude.{String, Option, none, some, ◌≡◌, refl, arith}
use ib_trader.Prelude.Int.{ℤ}
use ib_trader.Prelude.Text.{str_eq_iff}
use ib_trader.Prelude.Dict.{Dict, insert, erase, lookup-insert, lookup-erase}
use ib_trader.Ledger.State.{Status, Tags, LedgerEntry, Ledger, PositionGetter, Now}
use ib_trader.Ledger.Terminal.{apply_position_diff, raised, reconciled, make_terminal}
use ib_trader.Ledger.Operations.{
  register, FillReport, add_fill, record_fill, status_entry, record_status,
}
use ib_trader.Ledger.Cases.{
  IsKeyedDict, IsKeyed, register_cases, record_fill_cases, status_entry_cases, record_status_cases,
}

insert-IsKeyed :
    (id : String) (entry : LedgerEntry) (d : Dict LedgerEntry)
    → entry.ib_order_id ≡ id
    → IsKeyedDict d
    → IsKeyedDict (insert id entry d)
insert-IsKeyed id entry d own keyed j found e =
    ground (arith, str_eq_iff id j, lookup-insert id j entry d, keyed j found)

erase-IsKeyed : (id : String) (d : Dict LedgerEntry) → IsKeyedDict d → IsKeyedDict (erase id d)
erase-IsKeyed id d keyed j found e = ground (arith, lookup-erase id j d, keyed j found)

raised_id : (entry : LedgerEntry) (q : Option ℤ) → (raised entry q).ib_order_id ≡ entry.ib_order_id
raised_id entry none = refl
raised_id entry (some q) = ground arith

-- The reconcile keeps the entry's id.
pub reconciled_id :
    (getter : Option PositionGetter) (entry : LedgerEntry)
    → (reconciled getter entry).ib_order_id ≡ entry.ib_order_id
unfolding reconciled
reconciled_id getter entry = raised_id entry (apply_position_diff getter entry)

pub register-IsKeyed :
    (now : Now) (id : String) (tags : Tags) (target : ℤ) (pre : Option ℤ) (ledger : Ledger)
    → IsKeyed ledger
    → IsKeyed (register now id tags target pre ledger).0
register-IsKeyed now id tags target pre ledger keyed =
    register_cases now id tags target pre ledger (λ r. IsKeyed r.0)
      λ entry own. insert-IsKeyed id entry ledger.entries (own keyed) keyed

pub record_fill-IsKeyed :
    (now : Now) (id : String) (report : FillReport) (ledger : Ledger)
    → IsKeyed ledger
    → IsKeyed (record_fill now id report ledger).0
record_fill-IsKeyed now id report ledger keyed =
    record_fill_cases now id report ledger (λ r. IsKeyed r.0) keyed
      λ entry own. insert-IsKeyed id (add_fill report.fill entry) ledger.entries (own keyed) keyed

status_entry-IsKeyed :
    (getter : Option PositionGetter) (now : Now) (id : String) (status : Status)
    (entry : LedgerEntry) (ledger : Ledger)
    → entry.ib_order_id ≡ id
    → IsKeyed ledger
    → IsKeyed (status_entry getter now id status entry ledger).0
unfolding make_terminal
status_entry-IsKeyed getter now id status entry ledger own keyed =
    let kept = insert-IsKeyed id (record entry { last_status = status }) ledger.entries own keyed in
    status_entry_cases getter now id status entry ledger (λ r. IsKeyed r.0) (λ e progress. kept)
      (erase-IsKeyed entry.ib_order_id _ kept)

pub record_status-IsKeyed :
    (getter : Option PositionGetter) (now : Now) (id : String) (status : Status) (tags : Tags)
    (ledger : Ledger)
    → IsKeyed ledger
    → IsKeyed (record_status getter now id status tags ledger).0
record_status-IsKeyed getter now id status tags ledger keyed =
    record_status_cases getter now id status tags ledger (λ r. IsKeyed r.0) keyed
      (λ untracked. keyed)
      λ entry live own. status_entry-IsKeyed getter now id status entry ledger (own keyed) keyed
