-- ===== src/Daemon/Closing.antt =====
-- What `_maybe_close_trade_group` of ib_trader/daemon/reconciler.py books.
use ib_trader.Prelude.{
  String, Bool, true, false, Option, none, some, List, [], ◌∷◌, All, ◌≡◌, refl, sym, ◌∙◌, ap, arith,
}
use ib_trader.Prelude.Int.{ℤ, pos, ◌+ℤ◌, ◌-ℤ◌, ◌*ℤ◌, +ℤ-zero, zero-+ℤ, +ℤ_assoc, int_laws}
use ib_trader.Transactions.{
  LegType, Side, buy, sell, Event, Table, is_fill, get_filled_legs, get_for_trade,
}
use ib_trader.Daemon.{
  Totals, no_totals, value, add_entry, add_exit, add_leg, sum_legs, multiplier_of, gain, realized,
  realized_pnl,
}

-- What a fill pays.
abbrev pub flow : Event → ℤ
flow t = elim t.side [ buy ↦ pos 0 -ℤ value t | sell ↦ value t ]

abbrev pub flows : List Event → ℤ
flows [] = pos 0
flows (t ∷ legs) = flow t +ℤ flows legs

abbrev pub opposite : Side → Side
opposite buy = sell
opposite sell = buy

-- The entries of a trade are on its side, the other legs on the opposite side.
abbrev pub IsLegOf : Side → Option LegType → Event → Type 0
IsLegOf d none t = ⊥
IsLegOf d (some LegType.entry) t = t.side ≡ d
IsLegOf d (some LegType.profit_taker) t = t.side ≡ opposite d
IsLegOf d (some LegType.stop_loss) t = t.side ≡ opposite d
IsLegOf d (some LegType.close_leg) t = t.side ≡ opposite d

abbrev pub IsLeg : Side → Event → Type 0
IsLeg d t = (is_fill t.action ≡ true) × IsLegOf d t.leg_type t

-- The direction is that of the trade, if there is one yet.
abbrev IsFor : Side → Option Side → Type 0
IsFor d none = Unit
IsFor d (some e) = e ≡ d

more_entry : (x n v : ℤ) → x -ℤ (n +ℤ v) ≡ (x -ℤ n) +ℤ (pos 0 -ℤ v)
more_entry x n v = grind int_laws

more_exit : (x n v : ℤ) → (x +ℤ v) -ℤ n ≡ (x -ℤ n) +ℤ v
more_exit x n v = grind int_laws

entry_gain :
    (d : Side) (t : Event) (s : Totals) → t.side ≡ d → gain d (add_entry t s) ≡ gain d s +ℤ flow t
entry_gain buy t s e = rw e (more_entry s.exit_value s.entry_value (value t))
entry_gain sell t s e = rw e (more_exit s.entry_value s.exit_value (value t))

exit_gain :
    (d : Side) (t : Event) (s : Totals)
    → t.side ≡ opposite d
    → gain d (add_exit t s) ≡ gain d s +ℤ flow t
exit_gain buy t s e = rw e (more_exit s.exit_value s.entry_value (value t))
exit_gain sell t s e = rw e (more_entry s.entry_value s.exit_value (value t))

leg_gain :
    (d : Side) (leg : Option LegType) (t : Event) (s : Totals)
    → is_fill t.action ≡ true
    → IsLegOf d leg t
    → IsFor d s.direction
    → (gain d (add_leg leg t s) ≡ gain d s +ℤ flow t) × IsFor d (add_leg leg t s).direction
leg_gain d none t s f h k = absurd h
leg_gain d (some LegType.entry) t s f h k = rw f (entry_gain d t s h, h)
leg_gain d (some LegType.profit_taker) t s f h k = rw f (exit_gain d t s h, k)
leg_gain d (some LegType.stop_loss) t s f h k = rw f (exit_gain d t s h, k)
leg_gain d (some LegType.close_leg) t s f h k = rw f (exit_gain d t s h, k)

sum_gain :
    (d : Side) (legs : List Event) (s : Totals)
    → All (IsLeg d) legs
    → IsFor d s.direction
    → (gain d (sum_legs legs s) ≡ gain d s +ℤ flows legs) × IsFor d (sum_legs legs s).direction
unfolding sum_legs
sum_gain d [] s _ k = (sym (+ℤ-zero (gain d s)), k)
sum_gain d (t ∷ legs) s ((f, h), hs) k =
    let (one, dir) = leg_gain d t.leg_type t s f h k in
    let (rest, dirs) = sum_gain d legs (add_leg t.leg_type t s) hs dir in
    (rest ∙ ap (λ (g : ℤ). g +ℤ flows legs) one ∙ +ℤ_assoc (gain d s) (flow t) (flows legs), dirs)

no_gain : (d : Side) → gain d no_totals ≡ pos 0
unfolding ◌-ℤ◌
no_gain buy = refl
no_gain sell = refl

booked :
    (d : Side) (o : Option Side) (x : Bool) (s : Totals) (m p : ℤ)
    → IsFor d o
    → realized (record s { has_exit = x; direction = o }) m ≡ some p
    → p ≡ gain d s *ℤ m
booked d none x s m p k h = ground arith
booked d (some e) false s m p k h = ground arith
booked buy (some e) true s m p k h =
    let same : some (gain buy s *ℤ m) ≡ some p = rw k at h in cc same
booked sell (some e) true s m p k h =
    let same : some (gain sell s *ℤ m) ≡ some p = rw k at h in cc same

-- The P&L that a close books is the sum of what the fills in the log paid, times the multiplier of
-- the contract, when the entries are on one side and all other legs on the opposite one.
pub realized_pnl_lem :
    (d : Side) (id : String) (log : Table) (p : ℤ)
    → All (IsLeg d) (get_filled_legs id log)
    → realized_pnl id log ≡ some p
    → p ≡ flows (get_filled_legs id log) *ℤ multiplier_of (get_for_trade id log)
unfolding realized_pnl
realized_pnl_lem d id log p h e =
    let legs = get_filled_legs id log in
    let (sum, dir) = sum_gain d legs no_totals h tt in
    let s = sum_legs legs no_totals in
    booked d s.direction s.has_exit s (multiplier_of (get_for_trade id log)) p dir e
    ∙ ap (λ (g : ℤ). g *ℤ multiplier_of (get_for_trade id log))
        (sum ∙ rw (no_gain d) (zero-+ℤ (flows legs)))
