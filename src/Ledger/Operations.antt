-- ===== src/Ledger/Operations.antt =====
-- The public operations of `OrderLedger` in ib_trader/engine/order_ledger.py. Each returns the new
-- ledger and the events to publish; logging is left out.
use ib_trader.Prelude.{
  ℕ, ◌+◌, String, Bool, true, false, Option, none, some, List, [], ◌∷◌, ◌++◌, ◌||◌, ◌&&◌,
  if◌then◌else◌, leb,
}
use ib_trader.Prelude.Int.{ℤ, pos, negsuc, ◌+ℤ◌, ltb_ℤ, leb_ℤ, eqb_ℤ}
use ib_trader.Prelude.Text.{str_eq}
use ib_trader.Prelude.Dict.{Dict, member, lookup, insert}
use ib_trader.Ledger.State.{
  Status, Fill, Tags, LedgerEntry, filled_qty, EventStatus, ib, partially_filled, cancel_held,
  Event, make_event, Ledger, PositionGetter, Now, is_phantom, is_terminal_status, is_preroute_prev,
  is_cancel, is_inactive,
}
use ib_trader.Ledger.Terminal.{make_terminal, make_untracked_terminal}

-- A new `_LedgerEntry` with its defaults.
abbrev pub new_entry : Now → String → Tags → ℤ → Option ℤ → LedgerEntry
new_entry now ib_order_id tags target_qty pre_position = record {
  ib_order_id = ib_order_id;
  tags = tags;
  target_qty = target_qty;
  fills = [];
  last_status = Status.pending_submit;
  created_at = now.mono;
  stuck_alerted = false;
  pre_position = pre_position;
}

-- Stores an entry under its key.
abbrev pub store : String → LedgerEntry → Ledger → Ledger
store ib_order_id entry ledger = record ledger { entries = insert ib_order_id entry ledger.entries }

abbrev pub or_given : Option ℤ → Option ℤ → Option ℤ
or_given none given = given
or_given (some held) given = some held

-- `register` on an entry that a racing callback has made already
abbrev pub backfill : ℤ → Option ℤ → LedgerEntry → LedgerEntry
backfill target_qty pre_position entry = record entry {
  target_qty =
      if eqb_ℤ entry.target_qty (pos 0) && ltb_ℤ (pos 0) target_qty
      then target_qty
      else entry.target_qty;
  pre_position = or_given entry.pre_position pre_position;
}

unfoldable pub register : Now → String → Tags → ℤ → Option ℤ → Ledger → Ledger × List Event
register now ib_order_id tags target_qty pre_position ledger =
    let entry : LedgerEntry = elim (lookup ib_order_id ledger.entries) [
      | some existing ↦ backfill target_qty pre_position existing
      | none ↦ new_entry now ib_order_id tags target_qty pre_position
    ] in
    (
      store ib_order_id entry ledger,
      make_event entry false (ib Status.submitted) none none now.wall ∷ [],
    )

-- The target of an entry that a fill creates; -1 stands for a value that was not given.
abbrev pub target_of_fill : ℤ → ℤ → ℤ → ℤ
target_of_fill qty remaining total_qty =
    if ltb_ℤ (pos 0) total_qty
    then total_qty
    else if eqb_ℤ remaining (negsuc 0)
    then qty
    else qty +ℤ remaining

pub record FillReport : Type 0 where
  pub fill : Fill
  pub tags : Tags
  pub remaining : ℤ
  pub total_qty : ℤ

-- The entry that `record_fill` makes for an order it does not know.
abbrev pub entry_of_fill : Now → String → FillReport → LedgerEntry
entry_of_fill now ib_order_id report =
    new_entry now ib_order_id report.tags
      (target_of_fill report.fill.qty report.remaining report.total_qty) none

abbrev pub add_fill : Fill → LedgerEntry → LedgerEntry
add_fill fill entry = record entry { fills = entry.fills ++ (fill ∷ []) }

abbrev pub fill_status : LedgerEntry → EventStatus
fill_status entry =
    if ltb_ℤ (pos 0) entry.target_qty && leb_ℤ entry.target_qty (filled_qty entry)
    then ib Status.filled
    else partially_filled

-- `record_fill` once its entry is known
abbrev pub fill_entry : Now → String → FillReport → LedgerEntry → Ledger → Ledger × List Event
fill_entry now ib_order_id report entry ledger =
    let grown = add_fill report.fill entry in
    (
      store ib_order_id grown ledger,
      make_event grown false (fill_status grown) (some report.fill.qty) (some report.fill.price)
            now.wall
          ∷ [],
    )

unfoldable pub record_fill : Now → String → FillReport → Ledger → Ledger × List Event
record_fill now ib_order_id report ledger =
    if member ib_order_id ledger.recently_evicted
    then (ledger, [])
    else elim (lookup ib_order_id ledger.entries) [
      | some entry ↦ fill_entry now ib_order_id report entry ledger
      | none ↦
          if is_phantom ib_order_id
          then (ledger, [])
          else fill_entry now ib_order_id report (entry_of_fill now ib_order_id report) ledger
    ]

-- `cancel_might_be_preroute`
abbrev pub cancel_might_be_preroute : Status → Status → LedgerEntry → Bool
cancel_might_be_preroute status prev_status entry =
    is_cancel status
    && is_preroute_prev prev_status
    && (eqb_ℤ (filled_qty entry) (pos 0)
        || (ltb_ℤ (pos 0) entry.target_qty && ltb_ℤ (filled_qty entry) entry.target_qty))

-- `events.append(self._make_terminal(entry))`
abbrev pub emit_terminal : Option PositionGetter → Now → LedgerEntry → Ledger → Ledger × List Event
emit_terminal getter now entry ledger =
    let (evicted, event) = make_terminal getter now entry ledger in (evicted, event ∷ [])

-- `record_status` once its entry is known
unfoldable pub status_entry :
    Option PositionGetter → Now → String → Status → LedgerEntry → Ledger → Ledger × List Event
status_entry getter now ib_order_id status found ledger =
    let entry = record found { last_status = status } in
    let kept = store ib_order_id entry ledger in
    if is_terminal_status status
    then (if cancel_might_be_preroute status found.last_status entry
        then (kept, make_event entry false cancel_held none none now.wall ∷ [])
        else emit_terminal getter now entry kept)
    else (kept, make_event entry false (ib status) none none now.wall ∷ [])

unfoldable pub record_status :
    Option PositionGetter → Now → String → Status → Tags → Ledger → Ledger × List Event
record_status getter now ib_order_id status tags ledger =
    if member ib_order_id ledger.recently_evicted
    then (ledger, [])
    else elim (lookup ib_order_id ledger.entries) [
      | some entry ↦ status_entry getter now ib_order_id status entry ledger
      | none ↦
          if is_phantom ib_order_id
          then (ledger, [])
          else if is_inactive status && str_eq tags.order_ref ""
          then (ledger, make_untracked_terminal now ib_order_id status tags ∷ [])
          else status_entry getter now ib_order_id status
              (new_entry now ib_order_id tags (pos 0) none) ledger
    ]

-- The loop of `check_stuck`: the entries, marked, and those to alert on.
unfoldable pub mark_stuck : ℕ → ℕ → Dict LedgerEntry → Dict LedgerEntry × List LedgerEntry
mark_stuck mono timeout [] = ([], [])
mark_stuck mono timeout ((key, entry) ∷ entries) =
    let (marked, stuck) = mark_stuck mono timeout entries in
    if entry.stuck_alerted || leb mono (entry.created_at + timeout)
    then ((key, entry) ∷ marked, stuck)
    else (let alerted = record entry { stuck_alerted = true } in
        ((key, alerted) ∷ marked, alerted ∷ stuck))

-- `check_stuck`: an entry is passed over if `created_at >= monotonic() - timeout_seconds`
unfoldable pub check_stuck : Now → ℕ → Ledger → Ledger × List LedgerEntry
check_stuck now timeout ledger =
    let (marked, stuck) = mark_stuck now.mono timeout ledger.entries in
    (record { entries = marked; recently_evicted = [] }, stuck)
