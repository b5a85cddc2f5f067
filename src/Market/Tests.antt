-- ===== src/Market/Tests.antt =====
-- The calendar of ib_trader/engine/market_hours.py at concrete moments.
use ib_trader.Prelude.{true, ◌≡◌, arith}
use ib_trader.Market.Hours.{Moment, session_label}
use ib_trader.Market.Sessions.{next_minute, follows, sessions_follow}

-- Friday, 19:59 in New York, a minute before the weekend.
abbrev n : Moment
n = record { weekday = 4; hour = 19; minute = 59 }

-- Wednesday, 17:30 in New York and 16:30 in Chicago.
abbrev et : Moment
et = record { weekday = 2; hour = 17; minute = 30 }

sessions_follow_example : follows (session_label n) (session_label (next_minute n)) ≡ true
sessions_follow_example =
    sessions_follow n
      (record { weekday_lt = ground arith; hour_lt = ground arith; minute_lt = ground arith })
