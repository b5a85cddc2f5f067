-- ===== src/SmartMarket.antt =====
-- `_walk_limit_aggressive` of ib_trader/engine/order.py, the walker of SMART_MARKET orders. A price
-- is a whole number of a unit, `cent` of which are 0.01.
use ib_trader.Prelude.{
  ℕ, ◌*◌, Bool, true, false, ◌&&◌, ◌||◌, Option, none, some, List, [], ◌∷◌, if◌then◌else◌,
}
use ib_trader.Prelude.Int.{ℤ, pos, ◌+ℤ◌, ◌-ℤ◌, ◌*ℤ◌, ltb_ℤ, leb_ℤ, eqb_ℤ, min_ℤ, max_ℤ}
use ib_trader.Pricing.{half_even, quantize, on_grid, Side, buy, sell}
pub mod Cap
pub mod Walks
pub mod Floor
mod Tests

-- The statuses of the broker that the walker tells apart; `live` is any other text, `missing` none.
pub data IbStatus : Type 0 where
  filled : IbStatus
  cancelled : IbStatus
  inactive : IbStatus
  api_cancelled : IbStatus
  live : IbStatus
  missing : IbStatus

pub record Quote : Type 0 where
  pub bid : ℤ
  pub ask : ℤ
  pub last : ℤ

pub record OrderStatus : Type 0 where
  pub status : IbStatus
  pub qty_filled : ℤ

-- What one round of the loop reads, in the order of the code. Without a track `canceled` and
-- `canceled_later` are false; `pre` and `check` are missing and empty where the call raises.
pub record Observed : Type 0 where
  pub canceled : Bool
  pub expired : Bool
  pub current : OrderStatus
  pub cached : Option Quote
  pub snapshot : Quote
  pub canceled_later : Bool
  pub pre : OrderStatus
  pub amended : Bool
  pub check : OrderStatus

pub data Exit : Type 0 where
  filled_or_canceled : Exit
  duration_expired : Exit
  order_filled : Exit
  order_cancelled : Exit
  cap_reached : Exit
  terminal : IbStatus → Exit
  amend_failed : Exit

pub record Order : Type 0 where
  pub side : Side
  pub target_qty : ℤ
  pub floor_price : Option ℤ
  pub cent : ℕ

-- How a round ends: the walker returns, goes on, or goes on after it has amended the price.
pub data Outcome : Type 0 where
  exit : Exit → Outcome
  again : Outcome
  amend : ℤ → Outcome

-- `status in ("Cancelled", "Inactive")`
abbrev pub is_cancelled : IbStatus → Bool
is_cancelled cancelled = true
is_cancelled inactive = true
is_cancelled filled = false
is_cancelled api_cancelled = false
is_cancelled live = false
is_cancelled missing = false

-- `status in ("Filled", "Cancelled", "Inactive", "ApiCancelled")`
abbrev pub is_terminal : IbStatus → Bool
is_terminal live = false
is_terminal missing = false
is_terminal filled = true
is_terminal cancelled = true
is_terminal inactive = true
is_terminal api_cancelled = true

abbrev pub is_full : Order → OrderStatus → Bool
is_full o s = leb_ℤ o.target_qty s.qty_filled

-- `_slippage_floor`, with the percentage as a fraction of `whole`.
unfoldable pub slippage_floor : ℤ → Side → ℤ → ℕ → ℕ → ℤ
slippage_floor trigger_price sell max_slip_pct whole cent =
    quantize half_even (trigger_price *ℤ (pos whole -ℤ max_slip_pct)) (cent * whole) *ℤ pos cent
slippage_floor trigger_price buy max_slip_pct whole cent =
    quantize half_even (trigger_price *ℤ (pos whole +ℤ max_slip_pct)) (cent * whole) *ℤ pos cent

abbrev pub apply_cap : ℤ → ℤ → Side → ℤ
apply_cap step_price floor_price sell = max_ℤ step_price floor_price
apply_cap step_price floor_price buy = min_ℤ step_price floor_price

-- `_get_prices`: the cached quote if it has a price, else the broker's snapshot.
abbrev pub get_prices : Option Quote → Quote → Quote
get_prices none snapshot = snapshot
get_prices (some q) snapshot =
    if ltb_ℤ (pos 0) q.bid || ltb_ℤ (pos 0) q.ask || ltb_ℤ (pos 0) q.last then q else snapshot

-- Bid and ask that a step goes by: the last price where there is neither, nothing without any price.
abbrev pub market : Quote → Option (ℤ × ℤ)
market q =
    if eqb_ℤ q.bid (pos 0) && eqb_ℤ q.ask (pos 0)
    then (if ltb_ℤ (pos 0) q.last then some (q.last, q.last) else none)
    else some (q.bid, q.ask)

-- One cent towards the far side, or further to where the market has moved.
abbrev pub step_price : Side → ℤ → ℤ → ℤ → ℕ → ℤ
step_price sell last_sent bid ask cent =
    let step = last_sent -ℤ pos cent in if ltb_ℤ (pos 0) bid && ltb_ℤ bid step then bid else step
step_price buy last_sent bid ask cent =
    let step = last_sent +ℤ pos cent in if ltb_ℤ (pos 0) ask && ltb_ℤ step ask then ask else step

-- `_st.lower() if _st else "filled"`
abbrev pub ended : IbStatus → Exit
ended missing = order_filled
ended filled = terminal filled
ended cancelled = terminal cancelled
ended inactive = terminal inactive
ended api_cancelled = terminal api_cancelled
ended live = terminal live

-- From the second look at the order on.
unfoldable pub send : Order → ℤ → ℤ → Observed → Outcome
send o last_sent price r =
    if eqb_ℤ price last_sent
    then again
    else (if r.canceled_later
        then exit filled_or_canceled
        else (if is_terminal r.pre.status
            then exit (terminal r.pre.status)
            else (if is_full o r.pre
                then exit order_filled
                else (if r.amended
                    then amend price
                    else (if is_terminal r.check.status || is_full o r.check
                        then exit (ended r.check.status)
                        else exit amend_failed)))))

unfoldable pub capped : Order → ℤ → ℤ → Observed → Outcome
unfolding send
capped o last_sent price r = elim o.floor_price [
  | none ↦ send o last_sent (on_grid half_even price o.cent) r
  | some floor ↦
      if eqb_ℤ (apply_cap price floor o.side) floor && eqb_ℤ last_sent floor
      then exit cap_reached
      else send o last_sent (on_grid half_even (apply_cap price floor o.side) o.cent) r
]

-- Without a price the round does nothing.
unfoldable pub on_market : Option (ℤ × ℤ) → Order → ℤ → Observed → Outcome
unfolding capped
on_market none o last_sent r = again
on_market (some (bid, ask)) o last_sent r =
    capped o last_sent (step_price o.side last_sent bid ask o.cent) r

unfoldable pub round : Order → ℤ → Observed → Outcome
unfolding on_market
round o last_sent r =
    if r.canceled
    then exit filled_or_canceled
    else (if r.expired
        then exit duration_expired
        else (if is_full o r.current
            then exit order_filled
            else (if is_cancelled r.current.status
                then exit order_cancelled
                else on_market (market (get_prices r.cached r.snapshot)) o last_sent r)))

-- The prices that the walker has amended to, the exit if there was one, and `last_sent`.
pub record Walk : Type 0 where
  pub amends : List ℤ
  pub exited : Option Exit
  pub last_sent_price : ℤ

-- The rounds are those that the broker and the clock let happen.
unfoldable pub walk : Order → ℤ → List Observed → Walk
unfolding round
walk o last_sent [] = record { amends = []; exited = none; last_sent_price = last_sent }
walk o last_sent (r ∷ rounds) = elim (round o last_sent r) [
  | exit e ↦ record { amends = []; exited = some e; last_sent_price = last_sent }
  | again ↦ walk o last_sent rounds
  | amend price ↦ let rest = walk o price rounds in record rest { amends = price ∷ rest.amends }
]
