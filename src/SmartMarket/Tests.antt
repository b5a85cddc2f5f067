-- ===== src/SmartMarket/Tests.antt =====
-- The SMART_MARKET walker of ib_trader/engine/order.py, selling 19 from 10.00 in cents.
use ib_trader.Prelude.{ℕ, ◌<◌, true, false, some, List, [], ◌∷◌, ◌≡◌, refl, arith}
use ib_trader.Prelude.Int.{pos, ◌+ℤ◌, ◌-ℤ◌, ◌*ℤ◌}
use ib_trader.Pricing.{sell, on_grid, quantize, round}
use ib_trader.Pricing.Multiples.{IsMultiple}
use ib_trader.SmartMarket.{live, OrderStatus, Observed, Order, cap_reached, walk}
use ib_trader.SmartMarket.Walks.{IsWalk, IsLive, walk-IsWalk, cap_is_reached}

abbrev partly : OrderStatus
partly = record { status = live; qty_filled = pos 15 }

-- A round at a market of 9.99, with 15 of 19 filled.
abbrev at_market : ℕ → Observed
at_market bid = record {
  canceled = false;
  expired = false;
  current = partly;
  cached = some (record { bid = pos bid; ask = pos 1001; last = pos 1000 });
  snapshot = record { bid = pos 0; ask = pos 0; last = pos 0 };
  canceled_later = false;
  pre = partly;
  amended = true;
  check = partly;
}

abbrev order : Order
order = record { side = sell; target_qty = pos 19; floor_price = some (pos 997); cent = 1 }

abbrev rounds : List Observed
rounds = at_market 999 ∷ at_market 998 ∷ at_market 990 ∷ at_market 990 ∷ []

walk-run : walk order (pos 1000) rounds ≡ record {
  amends = pos 999 ∷ pos 998 ∷ pos 997 ∷ [];
  exited = some cap_reached;
  last_sent_price = pos 997;
}
unfolding walk on_grid quantize round ◌+ℤ◌ ◌-ℤ◌ ◌*ℤ◌
walk-run = refl

whole_price : (n : ℕ) → IsMultiple 1 (pos n)
unfolding ◌*ℤ◌
whole_price n = (pos n, ground arith)

at_market-IsLive : (bid : ℕ) → 0 < bid → IsLive order (at_market bid)
at_market-IsLive bid h = record {
  not_canceled = refl;
  in_time = refl;
  not_full = refl;
  not_cancelled = refl;
  priced = λ e. ground arith;
  still_on = refl;
  still_live = refl;
  still_open = refl;
  taken = refl;
}

walk-IsWalk_example : IsWalk sell 1 (pos 997) (pos 1000) (walk order (pos 1000) rounds).amends
walk-IsWalk_example =
    walk-IsWalk order (pos 1000) (pos 997) rounds refl (omega arith) (whole_price 1000)
      (whole_price 997) (omega arith)

cap_is_reached_example :
    ((walk order (pos 1000) rounds).exited ≡ some cap_reached)
    × ((walk order (pos 1000) rounds).last_sent_price ≡ pos 997)
unfolding ◌+ℤ◌
cap_is_reached_example =
    cap_is_reached order (pos 1000) (pos 997) 3 rounds refl (omega arith) (whole_price 1000)
      (whole_price 997) (omega arith) (omega arith) (omega arith)
      (
        at_market-IsLive 999 (omega arith),
        (
          at_market-IsLive 998 (omega arith),
          (at_market-IsLive 990 (omega arith), (at_market-IsLive 990 (omega arith), tt)),
        ),
      )
