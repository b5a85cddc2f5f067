-- ===== src/Ledger/Cases.antt =====
-- The ways through each operation of ib_trader/engine/order_ledger.py, as rules to split a proof
-- about its result.
use ib_trader.Prelude.{
  String, true, false, Option, none, some, List, [], ◌∷◌, ◌≡◌, refl, Option-cases, ◌⊎◌, inl, inr,
  Bool-cases, ◌&&◌,
}
use ib_trader.Prelude.Int.{ℤ, pos}
use ib_trader.Prelude.Text.{str_eq}
use ib_trader.Prelude.Dict.{Dict, member, lookup}
use ib_trader.Ledger.State.{
  Status, Tags, LedgerEntry, Ledger, PositionGetter, Now, is_phantom, Event, EventStatus, ib,
  make_event, is_terminal_status, is_inactive, cancel_held,
}
use ib_trader.Ledger.Terminal.{make_untracked_terminal}
use ib_trader.Ledger.Operations.{
  new_entry, backfill, store, register, FillReport, entry_of_fill, fill_entry, record_fill,
  status_entry, record_status, emit_terminal, cancel_might_be_preroute,
}

-- Every entry is found under its own id.
abbrev pub IsKeyedDict : Dict LedgerEntry → Type 0
IsKeyedDict d =
    (id : String) (entry : LedgerEntry) → lookup id d ≡ some entry → entry.ib_order_id ≡ id

abbrev pub IsKeyed : Ledger → Type 0
IsKeyed ledger = IsKeyedDict ledger.entries

-- In a keyed ledger the entry that an operation on `id` works on has this id.
abbrev pub IsOwn : String → LedgerEntry → Ledger → Type 0
IsOwn id entry ledger = IsKeyed ledger → entry.ib_order_id ≡ id

pub register_cases :
    (now : Now) (id : String) (tags : Tags) (target : ℤ) (pre : Option ℤ) (ledger : Ledger)
    (P : Ledger × List Event → Type 0)
    → ((entry : LedgerEntry)
        → IsOwn id entry ledger
        → P (
          store id entry ledger,
          make_event entry false (ib Status.submitted) none none now.wall ∷ [],
        ))
    → P (register now id tags target pre ledger)
unfolding register
register_cases now id tags target pre ledger P kept =
    elim (Option-cases (lookup id ledger.entries)) [
      | inl e ↦ rw e (kept (new_entry now id tags target pre) (λ keyed. refl))
      | inr (entry, e) ↦ rw e (kept (backfill target pre entry) (λ keyed. keyed id entry e))
    ]

pub record_fill_cases :
    (now : Now) (id : String) (report : FillReport) (ledger : Ledger)
    (P : Ledger × List Event → Type 0)
    → P (ledger, [])
    → ((entry : LedgerEntry) → IsOwn id entry ledger → P (fill_entry now id report entry ledger))
    → P (record_fill now id report ledger)
unfolding record_fill
record_fill_cases now id report ledger P dropped kept =
    elim (Bool-cases (member id ledger.recently_evicted)) [
      | inl gone ↦ rw gone dropped
      | inr live ↦ elim (Option-cases (lookup id ledger.entries)) [
        | inl e ↦ elim (Bool-cases (is_phantom id)) [
          | inl phantom ↦ rw (live, e, phantom) dropped
          | inr real ↦ rw (live, e, real) (kept (entry_of_fill now id report) (λ keyed. refl))
        ]
        | inr (entry, e) ↦ rw (live, e) (kept entry (λ keyed. keyed id entry e))
      ]
    ]

pub status_entry_cases :
    (getter : Option PositionGetter) (now : Now) (id : String) (status : Status)
    (found : LedgerEntry) (ledger : Ledger) (P : Ledger × List Event → Type 0)
    → ((s : EventStatus)
        → cancel_might_be_preroute status found.last_status found ≡ true
          ⊎ is_terminal_status status ≡ false
        → let entry = record found { last_status = status } in
          P (store id entry ledger, make_event entry false s none none now.wall ∷ []))
    → (let entry = record found { last_status = status } in
        P (emit_terminal getter now entry (store id entry ledger)))
    → P (status_entry getter now id status found ledger)
unfolding status_entry
status_entry_cases getter now id status found ledger P progress final =
    elim (Bool-cases (is_terminal_status status)) [
      | inr going ↦ rw going (progress (ib status) (inr going))
      | inl ended ↦ elim (Bool-cases (cancel_might_be_preroute status found.last_status found)) [
        | inl held ↦ rw (ended, held) (progress cancel_held (inl held))
        | inr gone ↦ rw (ended, gone) final
      ]
    ]

-- An order that is neither evicted nor known nor a phantom, reported inactive with no reference.
abbrev pub IsUntracked : String → Status → Tags → Ledger → Type 0
IsUntracked id status tags ledger =
    (member id ledger.recently_evicted ≡ false)
    × (lookup id ledger.entries ≡ none)
    × (is_phantom id ≡ false)
    × ((is_inactive status && str_eq tags.order_ref "") ≡ true)

pub record_status_cases :
    (getter : Option PositionGetter) (now : Now) (id : String) (status : Status) (tags : Tags)
    (ledger : Ledger) (P : Ledger × List Event → Type 0)
    → P (ledger, [])
    → (IsUntracked id status tags ledger
        → P (ledger, make_untracked_terminal now id status tags ∷ []))
    → ((entry : LedgerEntry)
        → member id ledger.recently_evicted ≡ false
        → IsOwn id entry ledger
        → P (status_entry getter now id status entry ledger))
    → P (record_status getter now id status tags ledger)
unfolding record_status
record_status_cases getter now id status tags ledger P dropped untracked kept =
    elim (Bool-cases (member id ledger.recently_evicted)) [
      | inl gone ↦ rw gone dropped
      | inr live ↦ elim (Option-cases (lookup id ledger.entries)) [
        | inr (entry, e) ↦ rw (live, e) (kept entry live (λ keyed. keyed id entry e))
        | inl e ↦ elim (Bool-cases (is_phantom id)) [
          | inl phantom ↦ rw (live, e, phantom) dropped
          | inr real ↦ elim (Bool-cases (is_inactive status && str_eq tags.order_ref "")) [
            | inl idle ↦ rw (live, e, real, idle) (untracked (live, e, real, idle))
            | inr named ↦
                rw (live, e, real, named)
                  (kept (new_entry now id tags (pos 0) none) live (λ keyed. refl))
          ]
        ]
      ]
    ]
