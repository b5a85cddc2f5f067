-- ===== src/Reprice.antt =====
-- `reprice_loop` of ib_trader/engine/order.py, the walker of MID orders.
use ib_trader.Prelude.{ℕ, suc, Bool, true, false, List, [], ◌∷◌, Option, none, some, if◌then◌else◌}
use ib_trader.Prelude.Int.{ℤ, eqb_ℤ}
use ib_trader.Pricing.{Side, calc_step_price}
use ib_trader.SmartMarket.{Quote, get_prices, market}
pub mod Reaches
mod Tests

-- What one step reads: the track before and after the sleep, the quotes, and whether the broker takes
-- the amendment. Without a track the first four are false.
pub record Observed : Type 0 where
  pub filled_before : Bool
  pub canceled_before : Bool
  pub filled_after : Bool
  pub canceled_after : Bool
  pub cached : Option Quote
  pub snapshot : Quote
  pub accepted : Bool

pub data Ending : Type 0 where
  all_steps : Ending
  paused_on_fill_at : ℕ → Ending
  canceled : Ending
  raised : Ending

pub record Repriced : Type 0 where
  pub amends : List ℤ
  pub last_sent_price : ℤ
  pub ending : Ending

pub data Outcome : Type 0 where
  stop : Ending → Outcome
  hold : Outcome
  amend : ℤ → Outcome

abbrev pub amended : ℤ → ℤ → Bool → Outcome
amended new_price last_sent accepted =
    if eqb_ℤ new_price last_sent then hold else (if accepted then amend new_price else stop raised)

-- A ValueError of the price ends the loop.
abbrev pub priced : Option ℤ → ℤ → Bool → Outcome
priced none last_sent accepted = stop raised
priced (some new_price) last_sent accepted = amended new_price last_sent accepted

module _ (portion : ℕ → ℕ → ℤ → ℤ) (side : Side) (total_steps : ℕ) (tick_size : ℤ) where
  abbrev pub on_market : Option (ℤ × ℤ) → ℕ → ℤ → Bool → Outcome
  on_market none step last_sent accepted = hold
  on_market (some (bid, ask)) step last_sent accepted =
      priced (calc_step_price portion bid ask step total_steps side tick_size) last_sent accepted

  unfoldable pub reprice_step : ℕ → ℤ → Observed → Outcome
  reprice_step step last_sent r =
      if r.filled_before
      then stop (paused_on_fill_at step)
      else (if r.canceled_before
          then stop canceled
          else (if r.filled_after
              then stop (paused_on_fill_at step)
              else (if r.canceled_after
                  then stop canceled
                  else on_market (market (get_prices r.cached r.snapshot)) step last_sent
                      r.accepted)))

  -- The steps from `step` on.
  unfoldable pub reprice_loop : ℕ → ℤ → List Observed → Repriced
  reprice_loop step last_sent [] = record {
    amends = [];
    last_sent_price = last_sent;
    ending = all_steps;
  }
  reprice_loop step last_sent (r ∷ rounds) = elim (reprice_step step last_sent r) [
    | stop e ↦ record { amends = []; last_sent_price = last_sent; ending = e }
    | hold ↦ reprice_loop (suc step) last_sent rounds
    | amend price ↦
        let rest = reprice_loop (suc step) price rounds in
        record rest { amends = price ∷ rest.amends }
  ]
