-- ===== src/Bars.antt =====
-- BarAggregator of ib_trader/bots/bar_aggregator.py: bars of five seconds to bars of a target size.
-- Times are seconds of the epoch; the target is not zero, or the code's division fails.
use ib_trader.Prelude.{
  ℕ, suc, ◌+◌, ◌*◌, ◌/◌, ◌≤◌, ◌<◌, Bool, true, false, Option, none, some, List, [], ◌∷◌, ◌++◌,
  length, ltb, leb, ◌==◌, if◌then◌else◌,
}
use ib_trader.Prelude.Int.{ℤ, ◌+ℤ◌, max_ℤ, min_ℤ}
pub mod Totals
pub mod Order
pub mod Window
mod Tests

pub record Bar : Type 0 where
  pub timestamp : ℕ
  pub open_price : ℤ
  pub high : ℤ
  pub low : ℤ
  pub close : ℤ
  pub volume : ℤ

-- The deque `_completed` has its newest bar first here.
pub record Aggregator : Type 0 where
  pub target_seconds : ℕ
  pub lookback_bars : ℕ
  pub completed : List Bar
  pub current : Option Bar
  pub ticks_in_current : ℕ
  pub last_seen_ts : Option ℕ
  pub total_bar_count : ℕ

-- `deque(maxlen=...)` keeps the newest.
unfoldable pub keep : ℕ → List Bar → List Bar
keep n [] = []
keep ℕ.zero (bar ∷ bars) = []
keep (suc n) (bar ∷ bars) = bar ∷ keep n bars

abbrev pub slot_start : ℕ → ℕ → ℕ
slot_start target_seconds ts = ts / target_seconds * target_seconds

-- `ts <= self._last_seen_ts`
abbrev pub is_seen : Option ℕ → ℕ → Bool
is_seen none ts = false
is_seen (some last) ts = leb ts last

abbrev pub start_bar : ℕ → Bar → Bar
start_bar slot bar = record bar { timestamp = slot }

abbrev pub extend_bar : Bar → Bar → Bar
extend_bar current bar = record current {
  high = max_ℤ current.high bar.high;
  low = min_ℤ current.low bar.low;
  close = bar.close;
  volume = current.volume +ℤ bar.volume;
}

-- A new bar in the aggregator with nothing in progress.
abbrev pub begin_bar : Bar → Aggregator → Aggregator
begin_bar bar a = record a {
  current = some (start_bar (slot_start a.target_seconds bar.timestamp) bar);
  ticks_in_current = 1;
  last_seen_ts = some bar.timestamp;
}

-- The slot has rolled: the bar in progress is completed.
abbrev pub finalize : Bar → Aggregator → Aggregator
finalize current a = record a {
  completed = keep a.lookback_bars (current ∷ a.completed);
  total_bar_count = a.total_bar_count + 1;
}

abbrev pub continue_bar : Bar → Bar → Aggregator → Aggregator
continue_bar current bar a = record a {
  current = some (extend_bar current bar);
  ticks_in_current = a.ticks_in_current + 1;
  last_seen_ts = some bar.timestamp;
}

abbrev pub accept_bar : Option Bar → Bar → Aggregator → Aggregator × List Bar
accept_bar none bar a = (begin_bar bar a, [])
accept_bar (some current) bar a =
    if current.timestamp == slot_start a.target_seconds bar.timestamp
    then (continue_bar current bar a, [])
    else (begin_bar bar (finalize current a), current ∷ [])

-- One round of the loop.
unfoldable pub add_bar : Bar → Aggregator → Aggregator × List Bar
add_bar bar a = if is_seen a.last_seen_ts bar.timestamp then (a, []) else accept_bar a.current bar a

unfoldable pub add_bars : List Bar → Aggregator → Aggregator × List Bar
add_bars [] a = (a, [])
add_bars (bar ∷ bars) a =
    let (after, completed) = add_bar bar a in
    let (final, later) = add_bars bars after in (final, completed ++ later)

-- The bars of a list one after the other put before those that are there.
abbrev pub newest_first : List Bar → List Bar → List Bar
newest_first [] kept = kept
newest_first (bar ∷ bars) kept = newest_first bars (bar ∷ kept)

-- The window is in ascending order, so the deque is turned around.
abbrev pub get_bar_window : Aggregator → Option (List Bar)
get_bar_window a =
    if ltb (length a.completed) a.lookback_bars then none else some (newest_first a.completed [])

-- `from_state_dict(a.to_state_dict(), lookback_bars_override=...)`
abbrev pub or_default : Option ℕ → ℕ → ℕ
or_default none n = n
or_default (some m) n = m

unfoldable pub restore : Option ℕ → Aggregator → Aggregator
restore override a =
    let lookback = or_default override a.lookback_bars in
    record a { lookback_bars = lookback; completed = keep lookback a.completed }
