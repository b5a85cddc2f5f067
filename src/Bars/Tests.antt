-- ===== src/Bars/Tests.antt =====
-- The aggregator of ib_trader/bots/bar_aggregator.py on bars of five seconds.
use ib_trader.Prelude.{ℕ, ◌+◌, none, List, [], ◌∷◌, ◌≡◌, refl, length}
use ib_trader.Prelude.Int.{pos, ◌+ℤ◌}
use ib_trader.Bars.{Bar, Aggregator, add_bars, add_bar}
use ib_trader.Bars.Totals.{sum_volume, volume_of, accepted, add_bars_volume}

abbrev bar : ℕ → ℕ → Bar
bar ts price = record {
  timestamp = ts;
  open_price = pos price;
  high = pos (price + 2);
  low = pos price;
  close = pos (price + 1);
  volume = pos 10;
}

-- Bars of 180 seconds, the last two kept, nothing seen yet.
abbrev a : Aggregator
a = record {
  target_seconds = 180;
  lookback_bars = 2;
  completed = [];
  current = none;
  ticks_in_current = 0;
  last_seen_ts = none;
  total_bar_count = 0;
}

-- The third bar is a repetition, the fourth opens the slot at 360 and the fifth the one at 720.
abbrev bars : List Bar
bars = bar 190 100 ∷ bar 195 104 ∷ bar 195 104 ∷ bar 365 90 ∷ bar 800 95 ∷ []

add_bars-run :
    (add_bars bars a).1
    ≡ record {
      timestamp = 180;
      open_price = pos 100;
      high = pos 106;
      low = pos 100;
      close = pos 105;
      volume = pos 20;
    }
      ∷ record (bar 365 90) { timestamp = 360 }
      ∷ []
unfolding add_bars add_bar ◌+ℤ◌
add_bars-run = refl

add_bars_volume_example :
    let (after, done) = add_bars bars a in
    (sum_volume done +ℤ volume_of after.current
      ≡ volume_of a.current +ℤ sum_volume (accepted a.last_seen_ts bars))
    × (after.total_bar_count ≡ a.total_bar_count + length done)
add_bars_volume_example = add_bars_volume bars a
