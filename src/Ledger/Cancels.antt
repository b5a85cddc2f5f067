-- ===== src/Ledger/Cancels.antt =====
-- Cancels that IB sends while it moves an order between venues, which `record_status` of
-- ib_trader/engine/order_ledger.py holds back.
use ib_trader.Prelude.{
  String, true, false, Option, none, some, List, [], ◌∷◌, ◌++◌, ◌≡◌, refl, ap, ◌∙◌, subst, ◌⊎◌, inl,
  inr, arith, Option-cases, All, All-append,
}
use ib_trader.Prelude.Int.{ℤ, pos, ◌+ℤ◌, ◌<ℤ◌, ◌≤ℤ◌}
use ib_trader.Prelude.Text.{str_eq_refl}
use ib_trader.Prelude.Dict.{member, lookup, lookup-insert_self, lookup-erase_self}
use ib_trader.Ledger.State.{
  Status, Tags, LedgerEntry, filled_qty, Ledger, PositionGetter, Now, is_phantom, Event, make_event,
  is_cancel, is_preroute_prev, cancel_held, is_inactive, is_terminal_status,
}
use ib_trader.Ledger.Terminal.{make_terminal}
use ib_trader.Ledger.Operations.{
  store, FillReport, status_entry, record_status, record_fill, emit_terminal,
  cancel_might_be_preroute, new_entry,
}
use ib_trader.Ledger.Cases.{IsKeyed}
use ib_trader.Ledger.Keyed.{reconciled_id, record_status-IsKeyed, record_fill-IsKeyed}
use ib_trader.Ledger.Attribution.{reconciled-Upgrades}
use ib_trader.Ledger.Fills.{
  IsProgress, filled_of, tracked_qty, record_fills, reported_qty, record_fills_total,
}

-- The entry's last status is one from which IB re-routes, and it is not filled, or only in part.
abbrev pub MayReroute : LedgerEntry → Type 0
MayReroute entry =
    (is_preroute_prev entry.last_status ≡ true)
    × ((filled_qty entry ≡ pos 0)
        ⊎ ((pos 0 <ℤ entry.target_qty) × (filled_qty entry <ℤ entry.target_qty)))

-- A cancel that may come from a re-route ends nothing: the entry stays with its fills, nothing is
-- evicted, and the one event is a progress event.
pub cancel_is_held :
    (getter : Option PositionGetter) (now : Now) (id : String) (status : Status) (tags : Tags)
    (ledger : Ledger) {entry : LedgerEntry}
    → member id ledger.recently_evicted ≡ false
    → lookup id ledger.entries ≡ some entry
    → is_cancel status ≡ true
    → MayReroute entry
    → let (after, events) = record_status getter now id status tags ledger in
      (lookup id after.entries ≡ some (record entry { last_status = status }))
      × (after.recently_evicted ≡ ledger.recently_evicted)
      × ((e : Event) × (events ≡ e ∷ []) × IsProgress e × (e.status ≡ cancel_held))
unfolding record_status status_entry make_event
cancel_is_held getter now id status tags ledger {entry} live found cancel (prev, unfilled) =
    let held : cancel_might_be_preroute status entry.last_status entry ≡ true = ground arith in
    let ends : is_terminal_status status ≡ true = ground arith in
    rw (live, found, ends, held)
      (lookup-insert_self id _ ledger.entries, refl, (_, refl, refl, refl))

-- What a final status does to the order `id` of which `total` was tracked.
abbrev EndsWith : String → ℤ → Ledger × List Event → Type 0
EndsWith id total (after, events) =
    (member id after.recently_evicted ≡ true)
    × (lookup id after.entries ≡ none)
    × ((e : Event) × (events ≡ e ∷ [])
        × (e.terminal ≡ true)
        × (e.ib_order_id ≡ id)
        × (total ≤ℤ e.filled_qty))

emit_terminal_effect :
    (getter : Option PositionGetter) (now : Now) (entry : LedgerEntry) (ledger : Ledger)
    → EndsWith entry.ib_order_id (filled_qty entry) (emit_terminal getter now entry ledger)
unfolding make_terminal make_event member
emit_terminal_effect getter now entry ledger = (
  rw (str_eq_refl entry.ib_order_id),
  lookup-erase_self entry.ib_order_id ledger.entries,
  (_, refl, refl, reconciled_id getter entry, ground (arith, reconciled-Upgrades getter entry)),
)

status_entry-filled :
    (getter : Option PositionGetter) (now : Now) (id : String) (entry : LedgerEntry)
    (ledger : Ledger)
    → entry.ib_order_id ≡ id
    → EndsWith id (filled_qty entry) (status_entry getter now id Status.filled entry ledger)
unfolding status_entry
status_entry-filled getter now id entry ledger own =
    let done = record entry { last_status = Status.filled } in
    let kept = store id done ledger in
    subst (λ i. EndsWith i (filled_qty entry) (emit_terminal getter now done kept)) own
      (emit_terminal_effect getter now done kept)

module _ (getter : Option PositionGetter) (now : Now) (id : String) (tags : Tags)
    (ledger : Ledger) where
  record_status_known :
      {entry : LedgerEntry} (status : Status)
      → member id ledger.recently_evicted ≡ false
      → lookup id ledger.entries ≡ some entry
      → record_status getter now id status tags ledger
        ≡ status_entry getter now id status entry ledger
  unfolding record_status
  record_status_known status live e = rw (live, e)

  record_status_new :
      (status : Status)
      → member id ledger.recently_evicted ≡ false
      → lookup id ledger.entries ≡ none
      → is_phantom id ≡ false
      → is_inactive status ≡ false
      → record_status getter now id status tags ledger
        ≡ status_entry getter now id status (new_entry now id tags (pos 0) none) ledger
  unfolding record_status
  record_status_new status live e real going = rw (live, e, real, going)

-- The status "Filled" always ends a live order: it is evicted, and its one event is terminal and
-- carries at least the tracked quantity.
pub filled_ends :
    (getter : Option PositionGetter) (now : Now) (id : String) (tags : Tags) (ledger : Ledger)
    → IsKeyed ledger
    → member id ledger.recently_evicted ≡ false
    → is_phantom id ≡ false
    → let (after, events) = record_status getter now id Status.filled tags ledger in
      (member id after.recently_evicted ≡ true)
      × (lookup id after.entries ≡ none)
      × ((e : Event) × (events ≡ e ∷ [])
          × (e.terminal ≡ true)
          × (e.ib_order_id ≡ id)
          × (tracked_qty id ledger ≤ℤ e.filled_qty))
filled_ends getter now id tags ledger keyed live real =
    elim (Option-cases (lookup id ledger.entries)) [
      | inl e ↦
          let made = new_entry now id tags (pos 0) none in
          rw (record_status_new getter now id tags ledger Status.filled live e real refl, e)
            (status_entry-filled getter now id made ledger refl)
      | inr (entry, e) ↦
          rw (record_status_known getter now id tags ledger Status.filled live e, e)
            (status_entry-filled getter now id entry ledger (keyed id entry e))
    ]

record_fills-IsKeyed :
    (id : String) (reports : List (Now × FillReport)) (ledger : Ledger)
    → IsKeyed ledger
    → IsKeyed (record_fills id reports ledger).0
unfolding record_fills
record_fills-IsKeyed id [] ledger keyed = keyed
record_fills-IsKeyed id ((now, report) ∷ reports) ledger keyed =
    record_fills-IsKeyed id reports (record_fill now id report ledger).0
      (record_fill-IsKeyed now id report ledger keyed)

-- A held cancel loses nothing: if an order that may be re-routed is reported cancelled, then filled
-- any number of times, then reported filled, all events but the last are progress events, and the
-- last one ends the order with at least the quantity filled before and after the cancel.
pub reroute_recovers :
    (getter : Option PositionGetter) (now later : Now) (id : String) (status : Status) (tags : Tags)
    (reports : List (Now × FillReport)) (ledger : Ledger) {entry : LedgerEntry}
    → IsKeyed ledger
    → member id ledger.recently_evicted ≡ false
    → is_phantom id ≡ false
    → lookup id ledger.entries ≡ some entry
    → is_cancel status ≡ true
    → MayReroute entry
    → let (held, before) = record_status getter now id status tags ledger in
      let (grown, between) = record_fills id reports held in
      let (after, last) = record_status getter later id Status.filled tags grown in
      All IsProgress (before ++ between)
      × (member id after.recently_evicted ≡ true)
      × ((e : Event) × (last ≡ e ∷ [])
          × (e.terminal ≡ true)
          × (e.ib_order_id ≡ id)
          × (filled_qty entry +ℤ reported_qty reports ≤ℤ e.filled_qty))
reroute_recovers getter now later id status tags reports ledger {entry} keyed live real found cancel
      may =
    let (held, before) = record_status getter now id status tags ledger in
    let (stays, kept, (p, one, progress, _)) =
      cancel_is_held getter now id status tags ledger live found cancel may in
    let live' : member id held.recently_evicted ≡ false = ap (member id) kept ∙ live in
    let (grown, between) = record_fills id reports held in
    let (total, kept', _, all) = record_fills_total id reports held live' real in
    let (evicted, _, (e, last, final, same, above)) =
      filled_ends getter later id tags grown
        (record_fills-IsKeyed id reports held
          (record_status-IsKeyed getter now id status tags ledger keyed))
        (ap (member id) kept' ∙ live') real in
    let sum : tracked_qty id grown ≡ filled_qty entry +ℤ reported_qty reports =
      total ∙ ap (λ f. filled_of f +ℤ reported_qty reports) stays in
    (
      All-append IsProgress before between (rw one (progress, tt)) all,
      evicted,
      (e, last, final, same, subst (λ q. q ≤ℤ e.filled_qty) sum above),
    )
