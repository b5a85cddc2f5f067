-- ===== src/Pricing.antt =====
-- ib_trader/engine/pricing.py and ib_trader/engine/ticks.py. A price is a whole number of a unit so
-- small that every Decimal that occurs is one. A quotient that is rounded to a whole number at once
-- is taken as exact: Decimal keeps 28 digits of it, more than a price has. The other quotients are
-- parameters.
use ib_trader.Prelude.{
  ℕ, suc, ◌+◌, ◌*◌, ◌/◌, ◌%◌, Bool, Option, none, some, ltb, ◌==◌, ◌||◌, if◌then◌else◌,
}
use ib_trader.Prelude.Int.{ℤ, pos, negsuc, ◌+ℤ◌, ◌-ℤ◌, ◌*ℤ◌, neg_ℤ, min_ℤ, eqb_ℤ, abs_ℤ}
pub mod Nearest
pub mod Snap
pub mod Steps
pub mod Shares
pub mod Multiples
pub mod Tests

-- The roundings of Decimal that the code names. All of them go by the magnitude.
pub data Rounding : Type 0 where
  half_even : Rounding
  half_up : Rounding
  up : Rounding
  down : Rounding

-- The rest of a division by `d` is `r`, and `q` is its quotient.
abbrev pub rounded : Rounding → ℕ → ℕ → ℕ → ℕ
rounded half_even q r d = if ltb (r + r) d then q else (if ltb d (r + r) then q + 1 else q + q % 2)
rounded half_up q r d = if ltb (r + r) d then q else q + 1
rounded up q r d = if r == 0 then q else q + 1
rounded down q r d = q

-- `(n / d).quantize(Decimal("1"), rounding=...)` of a magnitude
unfoldable pub round : Rounding → ℕ → ℕ → ℕ
round mode n d = rounded mode (n / d) (n % d) d

unfoldable pub quantize : Rounding → ℤ → ℕ → ℤ
quantize mode (pos n) d = pos (round mode n d)
quantize mode (negsuc n) d = neg_ℤ (pos (round mode (suc n) d))

-- `(ticks * tick_size).quantize(tick_size)`; the last call changes only how the number is written.
unfoldable pub on_grid : Rounding → ℤ → ℕ → ℤ
on_grid mode value tick = quantize mode value tick *ℤ pos tick

pub data Direction : Type 0 where
  nearest : Direction
  upwards : Direction
  downwards : Direction
  unknown : Direction

-- `none` stands for the ValueError of a tick that is not positive.
abbrev pub checked {ℓ} : {A : Type ℓ} → ℤ → (ℕ → Option A) → Option A
checked (pos ℕ.zero) f = none
checked (pos (suc t)) f = f (suc t)
checked (negsuc t) f = none

unfoldable pub snap_to_tick : ℤ → ℤ → Direction → Option ℤ
snap_to_tick price tick_size nearest = checked tick_size (λ t. some (on_grid half_up price t))
snap_to_tick price tick_size upwards = checked tick_size (λ t. some (on_grid up price t))
snap_to_tick price tick_size downwards = checked tick_size (λ t. some (on_grid down price t))
snap_to_tick price tick_size unknown = none

unfoldable pub is_on_tick : ℤ → ℤ → Option Bool
is_on_tick price tick_size = checked tick_size (λ t. some ((abs_ℤ price % t) == 0))

-- `_snap` of pricing.py
unfoldable pub snap : ℤ → ℤ → Option ℤ
snap value tick_size = checked tick_size (λ t. some (on_grid half_even value t))

-- `(bid + ask) / 2` over the tick is `bid + ask` over two ticks.
unfoldable pub calc_mid : ℤ → ℤ → ℤ → Option ℤ
calc_mid bid ask tick_size =
    checked tick_size (λ t. some (quantize half_even (bid +ℤ ask) (2 * t) *ℤ pos t))

pub data Side : Type 0 where
  buy : Side
  sell : Side

infixl 5 ◌>>=◌
abbrev pub ◌>>=◌ {ℓ κ} : {A : Type ℓ} {B : Type κ} → Option A → (A → Option B) → Option B
none >>= f = none
some a >>= f = f a

-- `portion step total d` is `(Decimal(step) / Decimal(total)) * d`.
module _ (portion : ℕ → ℕ → ℤ → ℤ) where
  unfoldable pub calc_step_price : ℤ → ℤ → ℕ → ℕ → Side → ℤ → Option ℤ
  calc_step_price bid ask step total_steps side tick_size =
      let target : ℤ = elim side [ buy ↦ ask | sell ↦ bid ] in
      if total_steps == 0 then none else (do
        mid ← calc_mid bid ask tick_size
        snap (mid +ℤ portion step total_steps (target -ℤ mid)) tick_size)

-- `per_unit p n` is `p / n`.
module _ (per_unit : ℤ → ℤ → ℤ) where
  unfoldable pub calc_profit_taker_price : ℤ → ℤ → ℤ → ℤ → ℤ → Option ℤ
  calc_profit_taker_price avg_fill_price qty_filled profit_amount tick_size multiplier =
      if eqb_ℤ qty_filled (pos 0) || eqb_ℤ multiplier (pos 0)
      then none
      else snap (avg_fill_price +ℤ per_unit profit_amount (qty_filled *ℤ multiplier)) tick_size

  unfoldable pub calc_profit_taker_price_short : ℤ → ℤ → ℤ → ℤ → ℤ → Option ℤ
  calc_profit_taker_price_short avg_fill_price qty_filled profit_amount tick_size multiplier =
      if eqb_ℤ qty_filled (pos 0) || eqb_ℤ multiplier (pos 0)
      then none
      else snap (avg_fill_price -ℤ per_unit profit_amount (qty_filled *ℤ multiplier)) tick_size

-- The price is checked as a tick is.
unfoldable pub calc_shares_from_dollars : ℤ → ℤ → ℤ → Option ℤ
calc_shares_from_dollars dollars price max_shares =
    checked price (λ p. some (min_ℤ (quantize down dollars p) max_shares))
