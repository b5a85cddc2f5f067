-- ===== src/Ledger/Fills.antt =====
-- What `record_fill` and `register` of ib_trader/engine/order_ledger.py do to an order's total.
use ib_trader.Prelude.{
  String, false, Option, none, some, List, [], ◌∷◌, ◌++◌, ◌≡◌, refl, ◌≢◌, arith, All, sym, ap, ◌∙◌,
  suc, length, Option-cases, inl, inr,
}
use ib_trader.Prelude.Int.{ℤ, pos, ◌+ℤ◌, +ℤ-zero, +ℤ_assoc}
use ib_trader.Prelude.Text.{str_eq_iff}
use ib_trader.Prelude.Dict.{Dict, member, lookup, insert, lookup-insert, lookup-insert_self}
use ib_trader.Ledger.State.{
  Fill, LedgerEntry, filled_qty, sum_qty-append, Event, make_event, Ledger, Now, is_phantom,
}
use ib_trader.Ledger.Operations.{FillReport, entry_of_fill, add_fill, fill_entry, record_fill}

abbrev pub IsProgress : Event → Type 0
IsProgress e = e.terminal ≡ false

-- What an order has filled so far; an order without an entry has filled nothing.
abbrev pub filled_of : Option LedgerEntry → ℤ
filled_of none = pos 0
filled_of (some entry) = filled_qty entry

abbrev pub tracked_qty : String → Ledger → ℤ
tracked_qty id ledger = filled_of (lookup id ledger.entries)

filled_qty-add_fill :
    (f : Fill) (entry : LedgerEntry) → filled_qty (add_fill f entry) ≡ filled_qty entry +ℤ f.qty
filled_qty-add_fill f entry = rw (sum_qty-append entry.fills (f ∷ [])) (rw +ℤ-zero refl)

-- What one fill of the order `id` must do.
abbrev FillEffect : String → ℤ → Ledger → Ledger × List Event → Type 0
FillEffect id qty ledger (after, events) =
    (tracked_qty id after ≡ tracked_qty id ledger +ℤ qty)
    × (after.recently_evicted ≡ ledger.recently_evicted)
    × ((e : Event) × (events ≡ e ∷ []) × IsProgress e × (e.filled_qty ≡ tracked_qty id after))
    × ((j : String) → id ≢ j → tracked_qty j after ≡ tracked_qty j ledger)

tracked_qty-insert_self :
    (id : String) (entry : LedgerEntry) (d : Dict LedgerEntry)
    → filled_of (lookup id (insert id entry d)) ≡ filled_qty entry
tracked_qty-insert_self id entry d = rw lookup-insert_self refl

tracked_qty-insert_ne :
    (id j : String) (entry : LedgerEntry) (d : Dict LedgerEntry)
    → id ≢ j
    → filled_of (lookup j (insert id entry d)) ≡ filled_of (lookup j d)
tracked_qty-insert_ne id j entry d ne = ground (arith, str_eq_iff id j, lookup-insert id j entry d)

fill_entry_effect :
    (now : Now) (id : String) (report : FillReport) (entry : LedgerEntry) (ledger : Ledger)
    → filled_qty entry ≡ tracked_qty id ledger
    → FillEffect id report.fill.qty ledger (fill_entry now id report entry ledger)
unfolding make_event
fill_entry_effect now id report entry ledger same =
    let grown = add_fill report.fill entry in
    let total = tracked_qty-insert_self id grown ledger.entries in
    (
      total ∙ filled_qty-add_fill report.fill entry ∙ ap (λ q. q +ℤ report.fill.qty) same,
      refl,
      (_, refl, refl, sym total),
      λ j ne. tracked_qty-insert_ne id j grown ledger.entries ne,
    )

module _ (now : Now) (id : String) (report : FillReport) (ledger : Ledger) where
  record_fill_known :
      {entry : LedgerEntry}
      → member id ledger.recently_evicted ≡ false
      → lookup id ledger.entries ≡ some entry
      → record_fill now id report ledger ≡ fill_entry now id report entry ledger
  unfolding record_fill
  record_fill_known live e = rw (live, e)

  record_fill_new :
      member id ledger.recently_evicted ≡ false
      → lookup id ledger.entries ≡ none
      → is_phantom id ≡ false
      → record_fill now id report ledger
        ≡ fill_entry now id report (entry_of_fill now id report) ledger
  unfolding record_fill
  record_fill_new live e real = rw (live, e, real)

-- A fill of an order that is neither evicted nor a phantom raises its total by the filled
-- quantity, evicts nothing, publishes one progress event with the new total, and leaves the total
-- of every other order as it was.
pub record_fill_effect :
    (now : Now) (id : String) (report : FillReport) (ledger : Ledger)
    → member id ledger.recently_evicted ≡ false
    → is_phantom id ≡ false
    → let (after, events) = record_fill now id report ledger in
      (tracked_qty id after ≡ tracked_qty id ledger +ℤ report.fill.qty)
      × (after.recently_evicted ≡ ledger.recently_evicted)
      × ((e : Event) × (events ≡ e ∷ []) × IsProgress e × (e.filled_qty ≡ tracked_qty id after))
      × ((j : String) → id ≢ j → tracked_qty j after ≡ tracked_qty j ledger)
record_fill_effect now id report ledger live real = elim (Option-cases (lookup id ledger.entries)) [
  | inl e ↦
      rw (record_fill_new now id report ledger live e real)
        (fill_entry_effect now id report (entry_of_fill now id report) ledger (rw e))
  | inr (entry, e) ↦
      rw (record_fill_known now id report ledger live e)
        (fill_entry_effect now id report entry ledger (rw e))
]

-- Fills of one order in a row, each at its own time.
unfoldable pub record_fills : String → List (Now × FillReport) → Ledger → Ledger × List Event
record_fills id [] ledger = (ledger, [])
record_fills id ((now, report) ∷ reports) ledger =
    let (after, events) = record_fill now id report ledger in
    let (final, later) = record_fills id reports after in (final, events ++ later)

abbrev pub reported_qty : List (Now × FillReport) → ℤ
reported_qty [] = pos 0
reported_qty ((_, report) ∷ reports) = report.fill.qty +ℤ reported_qty reports

-- Any number of fills of a live order, whatever their sizes, adds up to the sum of the fills,
-- publishes one event for each, all of them progress events, and evicts nothing.
pub record_fills_total :
    (id : String) (reports : List (Now × FillReport)) (ledger : Ledger)
    → member id ledger.recently_evicted ≡ false
    → is_phantom id ≡ false
    → let (after, events) = record_fills id reports ledger in
      (tracked_qty id after ≡ tracked_qty id ledger +ℤ reported_qty reports)
      × (after.recently_evicted ≡ ledger.recently_evicted)
      × (length events ≡ length reports)
      × All IsProgress events
unfolding record_fills
record_fills_total id [] ledger live real = (sym (+ℤ-zero _), refl, refl, tt)
record_fills_total id ((now, report) ∷ reports) ledger live real =
    let (after, events) = record_fill now id report ledger in
    let (grown, kept, (e, one, progress, _), _) =
      record_fill_effect now id report ledger live real in
    let (total, kept', count, all) =
      record_fills_total id reports after (ap (member id) kept ∙ live) real in
    (
      total
          ∙ ap (λ q. q +ℤ reported_qty reports) grown
          ∙ +ℤ_assoc (tracked_qty id ledger) report.fill.qty (reported_qty reports),
      kept' ∙ kept,
      rw one (ap suc count),
      rw one (progress, all),
    )
