-- ===== src/Lifo/Tests.antt =====
-- LIFO matching of ib_trader/engine/lifo_pnl.py at concrete fills.
use ib_trader.Prelude.{
  ℕ, ◌/◌, String, Bool, true, false, none, some, List, [], ◌∷◌, ◌≡◌, refl, if◌then◌else◌,
}
use ib_trader.Prelude.Int.{ℤ, pos, negsuc, neg_ℤ, ◌+ℤ◌, ◌-ℤ◌, ◌*ℤ◌}
use ib_trader.Lifo.Lots.{FillOf, Lot, realize_lifo, walk, match_lots, open_rest, open_cost, lot_pnl}
use ib_trader.Lifo.Seed.{
  Execution, Held, Side, or_zero_of, compute_one, compute_fills, lifo, sort_rows, insert_row,
  fills_of, ib_realized_of, first_multiplier, solve_seed_cost, simulate_avg,
}
use ib_trader.Lifo.Position.{Holds, compute_one-Holds}
use ib_trader.Prelude.Dict.{insert}
use ib_trader.Lifo.RoundTrip.{sum_results, sum_gains, round_trip_total}

-- No commissions are divided here; any quotient will do that is zero at zero.
abbrev div : ℤ → ℤ → ℤ
div a b = a

abbrev multiplier : ℤ
multiplier = pos 5

abbrev mark : ℤ
mark = pos 107

abbrev trade : String → ℤ → ℤ → FillOf
trade id q p = record { exec_id = id; qty = q; price = p; commission = pos 0 }

abbrev fill : FillOf
fill = trade "c" (negsuc 2) (pos 110)

-- Two buys, a partial sale of the newest lot, and the rest.
abbrev fills : List FillOf
fills =
    trade "a" (pos 2) (pos 100)
    ∷ trade "b" (pos 2) (pos 104)
    ∷ fill
    ∷ trade "d" (negsuc 0) (pos 90)
    ∷ []

abbrev lots : List Lot
lots = record { qty = pos 2; cost = pos 104 } ∷ record { qty = pos 2; cost = pos 100 } ∷ []

abbrev rest : List FillOf
rest = fill ∷ trade "d" (negsuc 0) (pos 90) ∷ []

-- The sale of three closes the lot at 104 and half of the one at 100.
walk-rest : walk div multiplier rest lots ≡ ([], ("c", pos 110) ∷ ("d", negsuc 49) ∷ [])
unfolding walk realize_lifo match_lots open_rest open_cost lot_pnl ◌+ℤ◌ ◌-ℤ◌ ◌*ℤ◌
walk-rest = refl

-- The quotient, rounded towards zero.
abbrev quot : ℤ → ℤ → ℤ
quot (pos a) (pos b) = pos (a / b)
quot (pos a) (negsuc b) = neg_ℤ (pos (a / ℕ.suc b))
quot (negsuc a) (pos b) = neg_ℤ (pos (ℕ.suc a / b))
quot (negsuc a) (negsuc b) = pos (ℕ.suc a / ℕ.suc b)

abbrev side_is_bought : Side → Bool
side_is_bought Side.bought = true
side_is_bought _ = false

abbrev row : String → ℕ → Side → ℕ → Execution
row id time side price = record {
  exec_id = id;
  exec_time = time;
  side = side;
  shares = some (pos (if side_is_bought side then 2 else 1));
  price = some (pos price);
  commission = none;
  realized_pnl = none;
  multiplier = some (pos 1);
}

-- In cents: IB holds 3 at 102.00 on average, after a purchase of 2 at 104.00 and a sale of 1 at
-- 105.00, listed in the wrong order. So 2 were held before, and they cost 100.00.
abbrev rows : List Execution
rows = row "y" 9 Side.sold 10500 ∷ row "x" 8 Side.bought 10400 ∷ []

abbrev held : Held
held = record { quantity = some (pos 3); avg_cost = some (pos 10200); multiplier = none }

compute-rows :
    compute_one quot (pos 100) (pos 50) rows held
    ≡ lifo
        (record { qty = pos 1; cost = pos 10400 } ∷ record { qty = pos 2; cost = pos 10000 } ∷ [])
        (("y", pos 100) ∷ [])
unfolding compute_one compute_fills sort_rows insert_row fills_of ib_realized_of first_multiplier
    solve_seed_cost simulate_avg walk realize_lifo match_lots open_rest open_cost lot_pnl ◌+ℤ◌ ◌-ℤ◌
    ◌*ℤ◌ insert
compute-rows = refl

compute_one-Holds_example :
    Holds (or_zero_of held.quantity) (compute_one quot (pos 100) (pos 50) rows held)
compute_one-Holds_example = compute_one-Holds quot (pos 100) (pos 50) rows held

round_trip_total_example :
    sum_results (walk div multiplier fills []).1 ≡ sum_gains div multiplier mark fills
unfolding ◌+ℤ◌
round_trip_total_example =
    round_trip_total div multiplier (λ m. refl) mark fills (refl, (refl, (refl, (refl, tt)))) refl
