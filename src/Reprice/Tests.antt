-- ===== src/Reprice/Tests.antt =====
-- The reprice loop of ib_trader/engine/order.py at ES, in quarters of a cent: a tick is 100.
use ib_trader.Prelude.{false, true, some, List, [], ◌∷◌, ◌≡◌, refl, arith}
use ib_trader.Prelude.Int.{pos, ◌+ℤ◌, ◌-ℤ◌, ◌*ℤ◌}
use ib_trader.Pricing.{buy, on_grid, quantize, round, snap, is_on_tick, calc_mid, calc_step_price}
use ib_trader.Pricing.Steps.{target_of}
use ib_trader.Pricing.Tests.{portion, portion-IsPortion}
use ib_trader.Reprice.{Observed, all_steps, reprice_step, reprice_loop}
use ib_trader.Reprice.Reaches.{IsCalm, IsChain, reprice_loop_reaches}

-- Bid 4000.00 and ask 4001.00.
abbrev calm : Observed
calm = record {
  filled_before = false;
  canceled_before = false;
  filled_after = false;
  canceled_after = false;
  cached = some (record { bid = pos 1600000; ask = pos 1600400; last = pos 0 });
  snapshot = record { bid = pos 0; ask = pos 0; last = pos 0 };
  accepted = true;
}

abbrev rounds : List Observed
rounds = calm ∷ calm ∷ calm ∷ []

calm-IsCalm : IsCalm (pos 1600000) (pos 1600400) calm
calm-IsCalm = record {
  unfilled = refl;
  uncanceled = refl;
  still_unfilled = refl;
  still_uncanceled = refl;
  quoted = refl;
  taken = refl;
}

-- A third of the half point is rounded to a quarter, and so are two thirds.
reprice_loop-run : reprice_loop portion buy 3 (pos 100) 1 (pos 1600200) rounds ≡ record {
  amends = pos 1600300 ∷ pos 1600400 ∷ [];
  last_sent_price = pos 1600400;
  ending = all_steps;
}
unfolding reprice_loop reprice_step calc_step_price calc_mid snap on_grid quantize round ◌+ℤ◌ ◌-ℤ◌
    ◌*ℤ◌
reprice_loop-run = refl

reprice_loop_reaches_example :
    let w = reprice_loop portion buy 3 (pos 100) 1 (pos 1600200) rounds in
    (w.ending ≡ all_steps)
    × (w.last_sent_price ≡ target_of buy (pos 1600000) (pos 1600400))
    × IsChain buy (pos 1600200) w.amends
unfolding is_on_tick calc_mid quantize round ◌+ℤ◌ ◌*ℤ◌
reprice_loop_reaches_example =
    reprice_loop_reaches portion portion-IsPortion buy 3 99 (pos 1600000) (pos 1600400)
      (pos 1600200) rounds (omega arith) refl refl refl (omega arith) refl
      (calm-IsCalm, (calm-IsCalm, (calm-IsCalm, tt)))
