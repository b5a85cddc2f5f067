-- ===== src/Market/Sessions.antt =====
-- How the sessions of ib_trader/engine/market_hours.py divide the week and follow each other.
use ib_trader.Prelude.{suc, Bool, true, false, not, ◌&&◌, ltb, ◌==◌, if◌then◌else◌, ◌≡◌, arith, ◌⊎◌}
use ib_trader.Market.Hours.{
  Moment, IsMoment, Session, weekend, session_break, overnight, pre_market, regular, after_hours,
  is_cme_futures_break, is_overnight_session, is_outside_rth, is_ib_session_active, session_label,
  is_cme_equity_break, Reason, no_reason, presubmitted_reason, weekend_closure, nightly_break,
}

abbrev pub is_overnight_label : Session → Bool
is_overnight_label overnight = true
is_overnight_label _ = false

abbrev pub is_regular_label : Session → Bool
is_regular_label regular = true
is_regular_label _ = false

abbrev pub is_open_label : Session → Bool
is_open_label weekend = false
is_open_label session_break = false
is_open_label _ = true

abbrev pub reason_of : Session → Reason
reason_of weekend = weekend_closure
reason_of session_break = nightly_break
reason_of _ = no_reason

-- The predicates are tests of the session's label: the overnight one holds in the overnight session
-- only, trading is outside the regular hours in every session but the regular one, and a session is
-- active, and no reason given, in every one but the weekend and the break.
pub predicates_follow_label :
    (n : Moment)
    → (is_overnight_session n ≡ is_overnight_label (session_label n))
      × (is_outside_rth n ≡ not (is_regular_label (session_label n)))
      × (is_ib_session_active n ≡ is_open_label (session_label n))
      × (presubmitted_reason n ≡ reason_of (session_label n))
predicates_follow_label n = ground arith

-- The next minute, the clock running on.
unfoldable pub next_minute : Moment → Moment
next_minute n =
    if ltb (suc n.minute) 60
    then record n { minute = suc n.minute }
    else (if ltb (suc n.hour) 24
        then record n { hour = suc n.hour; minute = 0 }
        else record { weekday = if n.weekday == 6 then 0 else suc n.weekday; hour = 0; minute = 0 })

-- The order in which the sessions follow each other.
abbrev pub follows : Session → Session → Bool
follows overnight session_break = true
follows session_break pre_market = true
follows pre_market regular = true
follows regular after_hours = true
follows after_hours overnight = true
follows after_hours weekend = true
follows weekend overnight = true
follows weekend weekend = true
follows overnight overnight = true
follows session_break session_break = true
follows pre_market pre_market = true
follows regular regular = true
follows after_hours after_hours = true
follows _ _ = false

pub next_minute-IsMoment : (n : Moment) → IsMoment n → IsMoment (next_minute n)
unfolding next_minute
next_minute-IsMoment n h = ground arith

-- From each minute of the week to the next, the session stays or is followed by the next one: the
-- overnight session by the break, then pre-market, regular hours and after-hours, and these by the
-- overnight session or the weekend, which ends in an overnight session.
pub sessions_follow :
    (n : Moment) → IsMoment n → follows (session_label n) (session_label (next_minute n)) ≡ true
unfolding next_minute
sessions_follow n h = ground arith

-- Chicago's clock is one hour behind New York's, all year.
abbrev pub IsHourBehind : Moment → Moment → Type 0
IsHourBehind ct et =
    (ct.minute ≡ et.minute)
    × (((suc ct.hour ≡ et.hour) × (ct.weekday ≡ et.weekday))
        ⊎ ((ct.hour ≡ 23)
            × (et.hour ≡ 0)
            × (et.weekday ≡ (if ct.weekday == 6 then 0 else suc ct.weekday))))

-- On clocks that are an hour apart, the break of the equity futures in Chicago is the break of the
-- CME family in New York on every day but Friday, when only the latter is reported.
pub breaks_agree :
    (et ct : Moment)
    → IsMoment et
    → IsMoment ct
    → IsHourBehind ct et
    → is_cme_equity_break ct ≡ is_cme_futures_break et && not (et.weekday == 4)
breaks_agree et ct he hc h = ground arith
