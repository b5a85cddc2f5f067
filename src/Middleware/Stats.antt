-- ===== src/Middleware/Stats.antt =====
-- The kill switch and the daily counters of ib_trader/bots/state.py. The store is `none` when there
-- is no Redis; a date is the number of its day.
use ib_trader.Prelude.{ℕ, ◌+◌, Bool, true, false, Option, none, some, ◌==◌, if◌then◌else◌}
use ib_trader.Prelude.Int.{ℤ, pos, ◌+ℤ◌}

-- What the read of the kill switch meets: no store, an error, or the document's `engaged`.
pub data KillRead : Type 0 where
  no_store : KillRead
  read_failed : KillRead
  answered : Option Bool → KillRead

abbrev pub is_kill_switch_engaged : KillRead → Bool
is_kill_switch_engaged no_store = true
is_kill_switch_engaged read_failed = true
is_kill_switch_engaged (answered none) = false
is_kill_switch_engaged (answered (some engaged)) = engaged

pub record Stats : Type 0 where
  pub trades_today : ℕ
  pub trades_total : ℕ
  pub pnl_today : ℤ
  pub date : ℕ

-- The stored document, which may be missing.
abbrev pub get_stats : ℕ → Option Stats → Stats
get_stats today none = record {
  trades_today = 0;
  trades_total = 0;
  pnl_today = pos 0;
  date = today;
}
get_stats today (some stats) = stats

abbrev pub maybe_reset_daily : ℕ → Option Stats → Stats
maybe_reset_daily today stored =
    let stats = get_stats today stored in
    if stats.date == today then stats else record {
      trades_today = 0;
      trades_total = stats.trades_total;
      pnl_today = pos 0;
      date = today;
    }

abbrev pub record_trade : ℕ → Option Stats → Option Stats
record_trade today stored =
    let stats = maybe_reset_daily today stored in
    some (record stats {
      trades_today = stats.trades_today + 1;
      trades_total = stats.trades_total + 1;
    })

abbrev pub record_pnl : ℕ → ℤ → Option Stats → Option Stats
record_pnl today pnl stored =
    let stats = maybe_reset_daily today stored in
    some (record stats { pnl_today = stats.pnl_today +ℤ pnl })
