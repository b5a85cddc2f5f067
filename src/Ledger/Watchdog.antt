-- ===== src/Ledger/Watchdog.antt =====
-- `check_stuck` of ib_trader/engine/order_ledger.py: whom it reports, and what it forgets.
use ib_trader.Prelude.{
  ℕ, ◌+◌, String, true, false, Option, none, some, [], ◌∷◌, ◌≡◌, refl, ap, ◌∙◌, inl, inr, arith,
  if◌then◌else◌, Bool-cases, ◌||◌, leb,
}
use ib_trader.Prelude.Int.{◌+ℤ◌, zero-+ℤ}
use ib_trader.Prelude.Text.{str_eq}
use ib_trader.Prelude.Dict.{Dict, lookup, member}
use ib_trader.Ledger.State.{LedgerEntry, Ledger, Now, is_phantom, Event}
use ib_trader.Ledger.Operations.{mark_stuck, check_stuck, FillReport, record_fill}
use ib_trader.Ledger.Fills.{tracked_qty, filled_of, record_fill_effect, IsProgress}

-- The entry after a tick: marked if it was not, and is older than the timeout.
abbrev pub ticked : ℕ → ℕ → LedgerEntry → LedgerEntry
ticked mono timeout entry =
    if entry.stuck_alerted || leb mono (entry.created_at + timeout)
    then entry
    else record entry { stuck_alerted = true }

abbrev pub ticked_opt : ℕ → ℕ → Option LedgerEntry → Option LedgerEntry
ticked_opt mono timeout none = none
ticked_opt mono timeout (some entry) = some (ticked mono timeout entry)

mark_stuck-lookup :
    (mono timeout : ℕ) (id : String) (d : Dict LedgerEntry)
    → lookup id (mark_stuck mono timeout d).0 ≡ ticked_opt mono timeout (lookup id d)
unfolding mark_stuck lookup
mark_stuck-lookup mono timeout id [] = refl
mark_stuck-lookup mono timeout id ((key, entry) ∷ d) =
    let rest = mark_stuck-lookup mono timeout id d in
    elim (Bool-cases (entry.stuck_alerted || leb mono (entry.created_at + timeout))) [
      | inl passed ↦ elim (Bool-cases (str_eq key id)) [
        | inl same ↦ rw (passed, same) (rw passed)
        | inr other ↦ rw (passed, other) rest
      ]
      | inr stuck ↦ elim (Bool-cases (str_eq key id)) [
        | inl same ↦ rw (stuck, same) (rw stuck)
        | inr other ↦ rw (stuck, other) rest
      ]
    ]

mark_stuck_again :
    (mono timeout : ℕ) (d : Dict LedgerEntry)
    → (mark_stuck mono timeout (mark_stuck mono timeout d).0).1 ≡ []
unfolding mark_stuck
mark_stuck_again mono timeout [] = refl
mark_stuck_again mono timeout ((key, entry) ∷ d) =
    elim (Bool-cases (entry.stuck_alerted || leb mono (entry.created_at + timeout))) [
      | inl passed ↦ rw passed (rw passed (mark_stuck_again mono timeout d))
      | inr stuck ↦ rw stuck (mark_stuck_again mono timeout d)
    ]

-- A watchdog tick evicts no entry and changes none but for the mark on those that are older than
-- the timeout and not marked yet; it forgets every evicted id; and a second tick at the same time
-- reports nothing.
pub check_stuck_effect :
    (now : Now) (timeout : ℕ) (ledger : Ledger)
    → let after = (check_stuck now timeout ledger).0 in
      ((id : String)
        → lookup id after.entries ≡ ticked_opt now.mono timeout (lookup id ledger.entries))
      × ((id : String) → tracked_qty id after ≡ tracked_qty id ledger)
      × (after.recently_evicted ≡ [])
      × ((check_stuck now timeout after).1 ≡ [])
unfolding check_stuck
check_stuck_effect now timeout ledger = (
  λ id. mark_stuck-lookup now.mono timeout id ledger.entries,
  λ id.
      ap filled_of (mark_stuck-lookup now.mono timeout id ledger.entries)
      ∙ same_fills now.mono timeout (lookup id ledger.entries),
  refl,
  mark_stuck_again now.mono timeout ledger.entries,
)
  where
    same_fills :
        (mono limit : ℕ) (o : Option LedgerEntry)
        → filled_of (ticked_opt mono limit o) ≡ filled_of o
    same_fills mono limit none = refl
    same_fills mono limit (some entry) = ground arith

-- A tick lets a finished order back in, however recently it ended: an order with no entry, evicted
-- or not, that is filled right after a tick is tracked again, with the fill's quantity, and a
-- progress event is published for it.
pub tick_reopens :
    (now late : Now) (timeout : ℕ) (id : String) (report : FillReport) (ledger : Ledger)
    → lookup id ledger.entries ≡ none
    → is_phantom id ≡ false
    → let ticked = (check_stuck now timeout ledger).0 in
      let (after, events) = record_fill late id report ticked in
      (tracked_qty id after ≡ report.fill.qty) × ((e : Event) × (events ≡ e ∷ []) × IsProgress e)
unfolding member
tick_reopens now late timeout id report ledger gone real =
    let ticked = (check_stuck now timeout ledger).0 in
    let (_, fills, forgot, _) = check_stuck_effect now timeout ledger in
    let (total, _, (e, one, progress, _), _) =
      record_fill_effect late id report ticked (ap (member id) forgot) real in
    (
      total
          ∙ ap (λ q. q +ℤ report.fill.qty) (fills id ∙ ap filled_of gone)
          ∙ zero-+ℤ report.fill.qty,
      (e, one, progress),
    )
