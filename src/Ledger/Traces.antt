-- ===== src/Ledger/Traces.antt =====
-- Runs of the calls that the engine makes of `OrderLedger` in ib_trader/engine/order_ledger.py:
-- in any order and number, an order gets at most one terminal event between two watchdog ticks.
use ib_trader.Prelude.{
  ℕ, ◌+◌, ◌≤◌, String, Bool, true, false, Option, List, [], ◌∷◌, ◌++◌, ◌≡◌, sym, ap, ◌∙◌, arith,
  if◌then◌else◌, ◌&&◌, All,
}
use ib_trader.Prelude.Int.{ℤ}
use ib_trader.Prelude.Text.{str_eq, str_eq_iff, str_eq_refl}
use ib_trader.Prelude.Dict.{member}
use ib_trader.Ledger.State.{
  Status, Tags, LedgerEntry, Ledger, PositionGetter, Now, Event, make_event, is_inactive,
}
use ib_trader.Ledger.Terminal.{make_terminal, make_untracked_terminal}
use ib_trader.Ledger.Operations.{
  store, register, FillReport, record_fill, status_entry, record_status, emit_terminal,
}
use ib_trader.Ledger.Cases.{
  IsKeyed, register_cases, record_fill_cases, status_entry_cases, record_status_cases, IsUntracked,
}
use ib_trader.Ledger.Keyed.{
  reconciled_id, register-IsKeyed, record_fill-IsKeyed, record_status-IsKeyed,
}

-- A call of the ledger, other than the watchdog's.
pub data Call : Type 0 where
  registers : Now → String → Tags → ℤ → Option ℤ → Call
  fills : Now → String → FillReport → Call
  status_changes : Option PositionGetter → Now → String → Status → Tags → Call

unfoldable pub call : Call → Ledger → Ledger × List Event
call (registers now id tags target pre) ledger = register now id tags target pre ledger
call (fills now id report) ledger = record_fill now id report ledger
call (status_changes getter now id status tags) ledger =
    record_status getter now id status tags ledger

unfoldable pub run : List Call → Ledger → Ledger × List Event
run [] ledger = (ledger, [])
run (c ∷ cs) ledger =
    let (after, events) = call c ledger in
    let (final, later) = run cs after in (final, events ++ later)

abbrev pub is_terminal_of : String → Event → Bool
is_terminal_of id e = e.terminal && str_eq e.ib_order_id id

-- How many of the events end the order `id`.
abbrev pub terminals : String → List Event → ℕ
terminals id [] = 0
terminals id (e ∷ es) = (if is_terminal_of id e then 1 else 0) + terminals id es

-- The call does not report an order without a reference as inactive: such an order, placed by hand
-- in TWS, gets its terminal event without an entry.
abbrev pub IsReferenced : Call → Type 0
IsReferenced (registers _ _ _ _ _) = Unit
IsReferenced (fills _ _ _) = Unit
IsReferenced (status_changes _ _ _ status tags) =
    (is_inactive status && str_eq tags.order_ref "") ≡ false

-- The terminal events that an order may still get.
abbrev allowance : String → Ledger → ℕ
allowance id ledger = if member id ledger.recently_evicted then 0 else 1

abbrev Spends : String → Ledger → Ledger × List Event → Type 0
Spends id ledger (after, events) = terminals id events + allowance id after ≤ allowance id ledger

terminals-append :
    (id : String) (es fs : List Event) → terminals id (es ++ fs) ≡ terminals id es + terminals id fs
terminals-append id [] fs = omega arith
terminals-append id (e ∷ es) fs = omega (arith, terminals-append id es fs)

progress-Spends :
    (id : String) (ledger : Ledger) (e : Event)
    → e.terminal ≡ false
    → terminals id (e ∷ []) + allowance id ledger ≤ allowance id ledger
progress-Spends id ledger e h = ground arith

emit_terminal-Spends :
    (j : String) (getter : Option PositionGetter) (now : Now) (entry : LedgerEntry)
    (ledger : Ledger)
    → member entry.ib_order_id ledger.recently_evicted ≡ false
    → Spends j ledger (emit_terminal getter now entry ledger)
unfolding make_terminal make_event member
emit_terminal-Spends j getter now entry ledger live =
    ground (arith, reconciled_id getter entry, str_eq_iff entry.ib_order_id j)

status_entry-Spends :
    (j : String) (getter : Option PositionGetter) (now : Now) (id : String) (status : Status)
    (entry : LedgerEntry) (ledger : Ledger)
    → member id ledger.recently_evicted ≡ false
    → entry.ib_order_id ≡ id
    → Spends j ledger (status_entry getter now id status entry ledger)
unfolding make_event
status_entry-Spends j getter now id status entry ledger live own =
    let named = record entry { last_status = status } in
    status_entry_cases getter now id status entry ledger (Spends j ledger) (λ s why. omega arith)
      (emit_terminal-Spends j getter now named (store id named ledger)
        (ap (λ i. member i ledger.recently_evicted) own ∙ live))

call-Spends :
    (j : String) (c : Call) (ledger : Ledger)
    → IsKeyed ledger
    → IsReferenced c
    → Spends j ledger (call c ledger)
unfolding call make_event
call-Spends j (registers now id tags target pre) ledger keyed ref =
    register_cases now id tags target pre ledger (Spends j ledger) λ entry own. omega arith
call-Spends j (fills now id report) ledger keyed ref =
    record_fill_cases now id report ledger (Spends j ledger) (omega arith) λ entry own. omega arith
call-Spends j (status_changes getter now id status tags) ledger keyed ref =
    record_status_cases getter now id status tags ledger (Spends j ledger) (omega arith)
      (λ idle. cc (sym ref ∙ idle.3))
      λ entry live own. status_entry-Spends j getter now id status entry ledger live (own keyed)

-- Every call keeps the ledger keyed.
pub call-IsKeyed : (c : Call) (ledger : Ledger) → IsKeyed ledger → IsKeyed (call c ledger).0
unfolding call
call-IsKeyed (registers now id tags target pre) ledger keyed =
    register-IsKeyed now id tags target pre ledger keyed
call-IsKeyed (fills now id report) ledger keyed = record_fill-IsKeyed now id report ledger keyed
call-IsKeyed (status_changes getter now id status tags) ledger keyed =
    record_status-IsKeyed getter now id status tags ledger keyed

run-Spends :
    (j : String) (cs : List Call) (ledger : Ledger)
    → IsKeyed ledger
    → All IsReferenced cs
    → Spends j ledger (run cs ledger)
unfolding run
run-Spends j [] ledger keyed refs = omega arith
run-Spends j (c ∷ cs) ledger keyed (ref, refs) =
    let (after, events) = call c ledger in
    omega (
      arith,
      call-Spends j c ledger keyed ref,
      run-Spends j cs after (call-IsKeyed c ledger keyed) refs,
      terminals-append j events (run cs after).1,
    )

-- In any run of registrations, fills and status changes from a keyed ledger, in which no order
-- without a reference is reported inactive, an order gets at most one terminal event; it gets none
-- if it was evicted before the run, and it is evicted after the run if it got one.
pub run_terminal_once :
    (id : String) (cs : List Call) (ledger : Ledger)
    → IsKeyed ledger
    → All IsReferenced cs
    → let (after, events) = run cs ledger in
      (terminals id events ≤ 1)
      × (member id ledger.recently_evicted ≡ true → terminals id events ≡ 0)
      × (terminals id events ≡ 1 → member id after.recently_evicted ≡ true)
run_terminal_once id cs ledger keyed refs =
    let spent = run-Spends id cs ledger keyed refs in
    (ground (arith, spent), ground (arith, spent), ground (arith, spent))

-- Without that condition the bound fails: an unknown order that is reported inactive with no
-- reference gets a terminal event each time, since it is not remembered.
pub untracked_repeats :
    (getter : Option PositionGetter) (now : Now) (id : String) (tags : Tags) (ledger : Ledger)
    → IsUntracked id Status.inactive tags ledger
    → terminals id
        (run
          (status_changes getter now id Status.inactive tags
            ∷ status_changes getter now id Status.inactive tags
            ∷ [])
          ledger).1
      ≡ 2
unfolding run call record_status make_untracked_terminal
untracked_repeats getter now id tags ledger (live, fresh, real, idle) =
    rw (live, fresh, real, idle) (rw (live, fresh, real, idle) (rw (str_eq_refl id)))
