-- ===== src/Market/Hours.antt =====
-- The predicates of ib_trader/engine/market_hours.py and market_hours_futures.py. A `datetime` is
-- read in the zone that the code converts it to; `weekday` counts from Monday, 0.
use ib_trader.Prelude.{
  ℕ, ◌+◌, ◌*◌, ◌<◌, Bool, true, false, ◌&&◌, ◌||◌, ltb, leb, ◌==◌, if◌then◌else◌,
}

pub record Moment : Type 0 where
  pub weekday : ℕ
  pub hour : ℕ
  pub minute : ℕ

-- What Python's `datetime` keeps.
pub record IsMoment (n : Moment) : Type 0 where
  pub weekday_lt : n.weekday < 7
  pub hour_lt : n.hour < 24
  pub minute_lt : n.minute < 60

-- The strings of `session_label`.
pub data Session : Type 0 where
  weekend : Session
  session_break : Session
  overnight : Session
  pre_market : Session
  regular : Session
  after_hours : Session

-- `_BREAK_START_MINS` and the other constants
abbrev pub break_start_mins : ℕ
break_start_mins = 230

abbrev pub break_end_mins : ℕ
break_end_mins = 240

abbrev pub overnight_start_mins : ℕ
overnight_start_mins = 1200

abbrev pub cme_break_start_mins : ℕ
cme_break_start_mins = 1020

abbrev pub cme_break_end_mins : ℕ
cme_break_end_mins = 1080

abbrev pub mins : Moment → ℕ
mins n = n.hour * 60 + n.minute

abbrev pub is_weekend_closure : Moment → Bool
is_weekend_closure n =
    if n.weekday == 4
    then leb overnight_start_mins (mins n)
    else (if n.weekday == 5
        then true
        else (if n.weekday == 6 then ltb (mins n) overnight_start_mins else false))

abbrev pub is_session_break : Moment → Bool
is_session_break n =
    if is_weekend_closure n
    then false
    else leb break_start_mins (mins n) && ltb (mins n) break_end_mins

abbrev pub is_cme_futures_break : Moment → Bool
is_cme_futures_break n =
    if is_weekend_closure n
    then false
    else (if leb 5 n.weekday
        then false
        else leb cme_break_start_mins (mins n) && ltb (mins n) cme_break_end_mins)

abbrev pub is_overnight_session : Moment → Bool
is_overnight_session n =
    if is_weekend_closure n
    then false
    else (if is_session_break n
        then false
        else ltb (mins n) break_start_mins || leb overnight_start_mins (mins n))

abbrev pub is_outside_rth : Moment → Bool
is_outside_rth n =
    ltb (mins n) (9 * 60 + 30)
    || (leb (16 * 60) (mins n) || (is_weekend_closure n || is_session_break n))

abbrev pub is_ib_session_active : Moment → Bool
is_ib_session_active n =
    if is_weekend_closure n then false else (if is_session_break n then false else true)

-- The text of `presubmitted_reason`, which is empty while a session is open.
pub data Reason : Type 0 where
  no_reason : Reason
  weekend_closure : Reason
  nightly_break : Reason

abbrev pub presubmitted_reason : Moment → Reason
presubmitted_reason n =
    if is_weekend_closure n
    then weekend_closure
    else (if is_session_break n then nightly_break else no_reason)

abbrev pub session_label : Moment → Session
session_label n =
    if is_weekend_closure n
    then weekend
    else (if is_session_break n
        then session_break
        else (if ltb (mins n) break_start_mins
            then overnight
            else (if ltb (mins n) (9 * 60 + 30)
                then pre_market
                else (if ltb (mins n) (16 * 60)
                    then regular
                    else (if ltb (mins n) overnight_start_mins then after_hours else overnight)))))

-- market_hours_futures.py, on the hours of Chicago.
abbrev pub is_cme_equity_break : Moment → Bool
is_cme_equity_break n = if leb 4 n.weekday then false else leb 16 n.hour && ltb n.hour 17
