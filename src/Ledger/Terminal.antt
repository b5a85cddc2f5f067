-- ===== src/Ledger/Terminal.antt =====
-- How ib_trader/engine/order_ledger.py turns an entry into its terminal event: the reconcile
-- against the broker's position, the resolved status and the eviction.
use ib_trader.Prelude.{
  String, true, Option, none, some, List, [], ◌∷◌, ◌++◌, ◌||◌, ◌&&◌, if◌then◌else◌,
}
use ib_trader.Prelude.Int.{ℤ, pos, ◌-ℤ◌, ltb_ℤ, leb_ℤ, eqb_ℤ, min_ℤ, max_ℤ}
use ib_trader.Prelude.Dict.{erase}
use ib_trader.Ledger.State.{
  Status, Side, Fill, Tags, LedgerEntry, filled_qty, EventStatus, ib, rejected,
  partial_fill_cancelled, Event, make_event, Ledger, PositionGetter, Now, is_inactive, is_cancel,
}

-- `_resolve_terminal_status`
unfoldable pub resolve_terminal_status : LedgerEntry → EventStatus
resolve_terminal_status entry =
    let filled = filled_qty entry in
    if ltb_ℤ (pos 0) filled && (leb_ℤ entry.target_qty filled || eqb_ℤ entry.target_qty (pos 0))
    then ib Status.filled
    else if eqb_ℤ filled (pos 0)
    then (if is_inactive entry.last_status then rejected else ib Status.cancelled)
    else partial_fill_cancelled

-- The signed change of the position in the order's direction; `none` is an unknown side.
abbrev pub position_delta : Side → ℤ → ℤ → Option ℤ
position_delta Side.buy current pre = some (current -ℤ pre)
position_delta Side.sell current pre = some (pre -ℤ current)
position_delta Side.unknown current pre = none

-- The last lines of `_apply_position_diff`, once the change is known.
abbrev pub effective_qty : LedgerEntry → ℤ → Option ℤ
effective_qty entry delta =
    let effective = min_ℤ (max_ℤ delta (filled_qty entry)) entry.target_qty in
    if leb_ℤ effective (filled_qty entry) then none else some effective

abbrev pub diff_of_delta : LedgerEntry → Option ℤ → Option ℤ
diff_of_delta entry none = none
diff_of_delta entry (some delta) = effective_qty entry delta

-- The lookup at the broker, whose exception is caught, and the test of the side.
abbrev pub diff_of_current : LedgerEntry → ℤ → Option ℤ → Option ℤ
diff_of_current entry pre none = none
diff_of_current entry pre (some current) =
    diff_of_delta entry (position_delta entry.tags.side current pre)

abbrev pub diff_of_pre : LedgerEntry → PositionGetter → Option ℤ → Option ℤ
diff_of_pre entry getter none = none
diff_of_pre entry getter (some pre) =
    if leb_ℤ entry.target_qty (pos 0) || leb_ℤ entry.target_qty (filled_qty entry)
    then none
    else if eqb_ℤ (filled_qty entry) (pos 0)
    then none
    else diff_of_current entry pre (getter entry.tags.symbol entry.tags.sec_type)

-- `_apply_position_diff`
unfoldable pub apply_position_diff : Option PositionGetter → LedgerEntry → Option ℤ
apply_position_diff none entry = none
apply_position_diff (some getter) entry = diff_of_pre entry getter entry.pre_position

-- `entry.fills[-1].price if entry.fills else Decimal("0")`
abbrev pub last_price : List Fill → ℤ
last_price [] = pos 0
last_price (f ∷ []) = f.price
last_price (f ∷ g ∷ fs) = last_price (g ∷ fs)

abbrev pub ghost_fill : ℤ → LedgerEntry → Fill
ghost_fill effective entry = record {
  qty = effective -ℤ filled_qty entry;
  price = last_price entry.fills;
  commission = pos 0;
  exec_id = "POSITION_DIFF_RECONCILE";
}

abbrev pub with_ghost : ℤ → LedgerEntry → LedgerEntry
with_ghost effective entry = record entry {
  fills = entry.fills ++ (ghost_fill effective entry ∷ []);
}

-- `effective_qty is not None and effective_qty > entry.filled_qty`
abbrev pub raised : LedgerEntry → Option ℤ → LedgerEntry
raised entry none = entry
raised entry (some effective) =
    if ltb_ℤ (filled_qty entry) effective then with_ghost effective entry else entry

-- The entry after the reconcile, with the ghost fill if there is a gap.
unfoldable pub reconciled : Option PositionGetter → LedgerEntry → LedgerEntry
reconciled getter entry = raised entry (apply_position_diff getter entry)

-- `_make_terminal`
unfoldable pub make_terminal : Option PositionGetter → Now → LedgerEntry → Ledger → Ledger × Event
make_terminal getter now entry ledger =
    let done = reconciled getter entry in
    (
      record {
        entries = erase entry.ib_order_id ledger.entries;
        recently_evicted = entry.ib_order_id ∷ ledger.recently_evicted;
      },
      make_event done true (resolve_terminal_status done) none none now.wall,
    )

-- `_make_untracked_terminal`
unfoldable pub make_untracked_terminal : Now → String → Status → Tags → Event
make_untracked_terminal now ib_order_id status tags = record {
  ib_order_id = ib_order_id;
  tags = tags;
  terminal = true;
  status = if is_cancel status then ib Status.cancelled else rejected;
  target_qty = pos 0;
  filled_qty = pos 0;
  avg_price = none;
  total_commission = pos 0;
  last_fill_qty = none;
  last_fill_price = none;
  ts = now.wall;
}
