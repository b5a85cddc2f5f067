-- ===== src/Ledger/Attribution.antt =====
-- What quantity a terminal event of ib_trader/engine/order_ledger.py carries: the reconcile
-- against the broker's position, and the status that follows from it.
use ib_trader.Prelude.{
  false, Option, none, some, List, [], ◌∷◌, ◌++◌, ◌≡◌, refl, ◌≢◌, arith, inl, ◌⊎◌, ◌||◌, ◌↔◌, ap,
  ◌∙◌,
}
use ib_trader.Prelude.Int.{
  ℤ, pos, ◌+ℤ◌, ◌<ℤ◌, ◌≤ℤ◌, min_ℤ, max_ℤ, eqb_ℤ, leb_ℤ, int_laws, eq_of_parts,
}
use ib_trader.Ledger.State.{
  Fill, LedgerEntry, sum_commission, total_commission, sum_qty, filled_qty, sum_qty-append,
  PositionGetter, ib, Status, rejected,
}
use ib_trader.Ledger.Terminal.{
  position_delta, effective_qty, diff_of_delta, raised, diff_of_current, diff_of_pre,
  apply_position_diff, ghost_fill, reconciled, resolve_terminal_status,
}

effective_qty_bounds :
    (entry : LedgerEntry) (delta : ℤ) {q : ℤ}
    → filled_qty entry <ℤ entry.target_qty
    → effective_qty entry delta ≡ some q
    → (filled_qty entry <ℤ q)
      × (q ≤ℤ entry.target_qty)
      × ((q ≡ delta) ⊎ ((q ≡ entry.target_qty) × (q ≤ℤ delta)))
effective_qty_bounds entry delta short e = ground arith

diff_of_delta_bounds :
    (entry : LedgerEntry) (delta : Option ℤ) {q : ℤ}
    → filled_qty entry <ℤ entry.target_qty
    → diff_of_delta entry delta ≡ some q
    → (filled_qty entry <ℤ q) × (q ≤ℤ entry.target_qty)
diff_of_delta_bounds entry none short e = cc
diff_of_delta_bounds entry (some delta) short e =
    let (above, below, _) = effective_qty_bounds entry delta short e in (above, below)

diff_of_current_bounds :
    (entry : LedgerEntry) (pre : ℤ) (current : Option ℤ) {q : ℤ}
    → filled_qty entry <ℤ entry.target_qty
    → diff_of_current entry pre current ≡ some q
    → (filled_qty entry <ℤ q) × (q ≤ℤ entry.target_qty)
diff_of_current_bounds entry pre none short e = cc
diff_of_current_bounds entry pre (some current) short e =
    diff_of_delta_bounds entry (position_delta entry.tags.side current pre) short e

diff_of_pre_bounds :
    (entry : LedgerEntry) (getter : PositionGetter) (pre : Option ℤ) {q : ℤ}
    → diff_of_pre entry getter pre ≡ some q
    → (filled_qty entry <ℤ q) × (q ≤ℤ entry.target_qty) × (filled_qty entry ≢ pos 0)
diff_of_pre_bounds entry getter none e = cc
diff_of_pre_bounds entry getter (some pre) e =
    ground (arith, diff_of_current_bounds entry pre (getter entry.tags.symbol entry.tags.sec_type))

apply_position_diff_bounds :
    (getter : Option PositionGetter) (entry : LedgerEntry) {q : ℤ}
    → apply_position_diff getter entry ≡ some q
    → (filled_qty entry <ℤ q) × (q ≤ℤ entry.target_qty) × (filled_qty entry ≢ pos 0)
unfolding apply_position_diff
apply_position_diff_bounds none entry e = cc
apply_position_diff_bounds (some getter) entry e =
    diff_of_pre_bounds entry getter entry.pre_position e

filled_qty-ghost :
    (entry : LedgerEntry) (q : ℤ) → sum_qty (entry.fills ++ (ghost_fill q entry ∷ [])) ≡ q
filled_qty-ghost entry q =
    rw (sum_qty-append entry.fills (ghost_fill q entry ∷ [])) (omega int_laws)

sum_commission-ghost :
    (entry : LedgerEntry) (q : ℤ)
    → sum_commission (entry.fills ++ (ghost_fill q entry ∷ [])) ≡ sum_commission entry.fills
sum_commission-ghost entry q = go entry.fills
  where
    go : (fs : List Fill) → sum_commission (fs ++ (ghost_fill q entry ∷ [])) ≡ sum_commission fs
    go [] = omega int_laws
    go (f ∷ fs) = ap (λ c. f.commission +ℤ c) (go fs)

-- What reconciling may change: nothing, or the filled quantity is raised, by one ghost fill that
-- carries no commission, to a quantity above the tracked fills and at most the target.
abbrev pub Upgrades : LedgerEntry → LedgerEntry → Type 0
Upgrades entry done =
    (done ≡ entry)
    ⊎ ((filled_qty entry <ℤ filled_qty done)
        × (filled_qty done ≤ℤ done.target_qty)
        × (filled_qty entry ≢ pos 0)
        × (total_commission done ≡ total_commission entry)
        × (done.target_qty ≡ entry.target_qty)
        × (done.last_status ≡ entry.last_status))

raised-Upgrades :
    (entry : LedgerEntry) (q : Option ℤ)
    → ((v : ℤ)
        → q ≡ some v
        → (filled_qty entry <ℤ v) × (v ≤ℤ entry.target_qty) × (filled_qty entry ≢ pos 0))
    → Upgrades entry (raised entry q)
raised-Upgrades entry none h = inl refl
raised-Upgrades entry (some v) h =
    ground (arith, h v refl, filled_qty-ghost entry v, sum_commission-ghost entry v)

-- Whatever the broker's position says, a terminal event never claims less than the tracked fills
-- or, by a ghost fill, more than the target; it invents no fill for an order without any, and no
-- commission.
pub reconciled-Upgrades :
    (getter : Option PositionGetter) (entry : LedgerEntry)
    → Upgrades entry (reconciled getter entry)
unfolding reconciled
reconciled-Upgrades getter entry =
    raised-Upgrades entry (apply_position_diff getter entry)
      λ v e. apply_position_diff_bounds getter entry e

-- The clamp that the terminal quantity is meant to be.
abbrev pub clamped : ℤ → LedgerEntry → ℤ
clamped delta entry = min_ℤ (max_ℤ delta (filled_qty entry)) entry.target_qty

filled_qty-raised :
    (entry : LedgerEntry) (delta : ℤ)
    → filled_qty entry <ℤ entry.target_qty
    → filled_qty (raised entry (effective_qty entry delta)) ≡ clamped delta entry
filled_qty-raised entry delta short = ground (
  arith,
  filled_qty-ghost entry (clamped delta entry),
  eq_of_parts (filled_qty entry) (clamped delta entry),
)

diff_of_pre-eq-effective :
    (getter : PositionGetter) (entry : LedgerEntry) (pre : ℤ) (current delta : ℤ)
    → getter entry.tags.symbol entry.tags.sec_type ≡ some current
    → position_delta entry.tags.side current pre ≡ some delta
    → filled_qty entry ≢ pos 0
    → pos 0 <ℤ entry.target_qty
    → filled_qty entry <ℤ entry.target_qty
    → diff_of_pre entry getter (some pre) ≡ effective_qty entry delta
diff_of_pre-eq-effective getter entry pre current delta answered known some_filled sized short =
    let nonzero : eqb_ℤ (filled_qty entry) (pos 0) ≡ false =
      ground (arith, eq_of_parts (filled_qty entry) (pos 0)) in
    let unmet : (leb_ℤ entry.target_qty (pos 0) || leb_ℤ entry.target_qty (filled_qty entry))
        ≡ false =
      ground arith in
    rw (unmet, nonzero, answered, known)

-- If the position before the order is known, the lookup answers, the side is known and the order
-- is filled in part, then the terminal quantity is exactly the position's change in the order's
-- direction, clamped between the tracked fills and the target.
pub reconciled_exact :
    (getter : PositionGetter) (entry : LedgerEntry) {pre current delta : ℤ}
    → entry.pre_position ≡ some pre
    → getter entry.tags.symbol entry.tags.sec_type ≡ some current
    → position_delta entry.tags.side current pre ≡ some delta
    → filled_qty entry ≢ pos 0
    → pos 0 <ℤ entry.target_qty
    → filled_qty entry <ℤ entry.target_qty
    → filled_qty (reconciled (some getter) entry) ≡ clamped delta entry
unfolding reconciled apply_position_diff
reconciled_exact getter entry {pre} {current} {delta} held answered known some_filled sized short =
    ap (λ q. filled_qty (raised entry q))
      (ap (diff_of_pre entry getter) held
        ∙ diff_of_pre-eq-effective getter entry pre current delta answered known some_filled sized
            short)
    ∙ filled_qty-raised entry delta short

-- The status of a terminal event: "Filled" exactly when something filled and it meets the target,
-- or the target is not known; with nothing filled, "Rejected" for an inactive order and
-- "Cancelled" for any other; else "PartialFillCancelled".
pub resolve_terminal_status_lem :
    (entry : LedgerEntry)
    → ((resolve_terminal_status entry ≡ ib Status.filled) ↔ (
        (pos 0 <ℤ filled_qty entry)
        × ((entry.target_qty ≤ℤ filled_qty entry) ⊎ (entry.target_qty ≡ pos 0))))
      × ((resolve_terminal_status entry ≡ rejected)
          ↔ ((filled_qty entry ≡ pos 0) × (entry.last_status ≡ Status.inactive)))
      × ((resolve_terminal_status entry ≡ ib Status.cancelled)
          ↔ ((filled_qty entry ≡ pos 0) × (entry.last_status ≢ Status.inactive)))
unfolding resolve_terminal_status
resolve_terminal_status_lem entry =
    let none_filled = eq_of_parts (filled_qty entry) (pos 0) in
    let no_target = eq_of_parts entry.target_qty (pos 0) in
    (
      (ground (arith, no_target), ground (arith, no_target)),
      (ground (arith, none_filled), ground (arith, none_filled)),
      (ground (arith, none_filled), ground (arith, none_filled)),
    )
