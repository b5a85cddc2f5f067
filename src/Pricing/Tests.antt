-- ===== src/Pricing/Tests.antt =====
-- The prices of ib_trader/engine/pricing.py at ES, in quarters of a cent: a tick is 100.
use ib_trader.Prelude.{ℕ, ◌*◌, ◌/◌, ◌≤◌, ◌<◌, true, some, ◌≡◌, refl, ap, ◌∙◌, arith}
use ib_trader.Prelude.Int.{ℤ, pos, negsuc, ◌*ℤ◌, ◌≤ℤ◌, abs_ℤ}
use ib_trader.Pricing.{
  upwards, on_grid, quantize, round, snap_to_tick, is_on_tick, calc_mid, sell, calc_step_price,
}
use ib_trader.Pricing.Nearest.{IsNear, div_mono}
use ib_trader.Pricing.Snap.{signed, signed_abs, rounding_of, snap_to_tick_lem}
use ib_trader.Pricing.Steps.{IsPortion, IsTowards, target_of, step_prices}
use native.Mathlib.Nat.{mul-div_right, mul-le-mul_right}

-- A portion that drops what is below the unit.
abbrev pub portion : ℕ → ℕ → ℤ → ℤ
portion s total d = signed d (s * abs_ℤ d / total)

div_zero : (n total : ℕ) → 0 * n / total ≡ 0
div_zero n total = grind arith

nothing : (s n total : ℕ) → n ≡ 0 → s * n / total ≡ 0
nothing s n total e = rw e (grind arith)

signed_zero : (d : ℤ) → signed d 0 ≡ pos 0
signed_zero (pos n) = refl
signed_zero (negsuc n) = refl

shares : (s s' n total : ℕ) → 0 < total → s ≤ s' → s * n / total ≤ s' * n / total
shares s s' n total p h = div_mono (s * n) (s' * n) total p (mul-le-mul_right n h)

portion_rises :
    (s s' total : ℕ) (d : ℤ)
    → 0 < total
    → s ≤ s'
    → pos 0 ≤ℤ d
    → portion s total d ≤ℤ portion s' total d
portion_rises s s' total (pos n) p h up = omega (arith, shares s s' (abs_ℤ (pos n)) total p h)
portion_rises s s' total (negsuc n) p h up = absurd (omega arith)

portion_falls :
    (s s' total : ℕ) (d : ℤ)
    → 0 < total
    → s ≤ s'
    → d ≤ℤ pos 0
    → portion s' total d ≤ℤ portion s total d
portion_falls s s' total (pos n) p h low =
    ground (arith, shares s s' (abs_ℤ (pos n)) total p h, nothing s n total, nothing s' n total)
portion_falls s s' total (negsuc n) p h low =
    ground (arith, shares s s' (abs_ℤ (negsuc n)) total p h)

pub portion-IsPortion : IsPortion portion
portion-IsPortion = record {
  start = λ total d p. ap (signed d) (div_zero (abs_ℤ d) total) ∙ signed_zero d;
  whole = λ total d p. ap (signed d) (mul-div_right (abs_ℤ d) p) ∙ signed_abs d;
  rises = portion_rises;
  falls = portion_falls;
}

-- Bid 4000.25 and ask 4001.25.
step_prices_example :
    (mid : ℤ) × (p : ℤ) × (q : ℤ) × (calc_mid (pos 1600100) (pos 1600500) (pos 100) ≡ some mid)
    × (pos 1600100 ≤ℤ mid)
    × (mid ≤ℤ pos 1600500)
    × (calc_step_price portion (pos 1600100) (pos 1600500) 1 3 sell (pos 100) ≡ some p)
    × (calc_step_price portion (pos 1600100) (pos 1600500) 2 3 sell (pos 100) ≡ some q)
    × IsTowards sell mid p
    × IsTowards sell p q
    × IsTowards sell q (target_of sell (pos 1600100) (pos 1600500))
    × (calc_step_price portion (pos 1600100) (pos 1600500) 3 3 sell (pos 100)
        ≡ some (target_of sell (pos 1600100) (pos 1600500)))
unfolding is_on_tick
step_prices_example =
    step_prices portion portion-IsPortion (pos 1600100) (pos 1600500) 1 2 3 sell 99 (omega arith)
      (omega arith) (omega arith) refl refl (omega arith)

snap_to_tick_lem_example :
    (k : ℕ) × (snap_to_tick (negsuc 149) (pos 100) upwards ≡ some (signed (negsuc 149) (k * 100)))
    × (is_on_tick (signed (negsuc 149) (k * 100)) (pos 100) ≡ some true)
    × IsNear (rounding_of upwards) k (abs_ℤ (negsuc 149)) 100
snap_to_tick_lem_example = snap_to_tick_lem (negsuc 149) 99 upwards (λ e. cc e)

-- "up" takes -1.50 to -2.00 in ticks of one, away from a ceiling.
snap_to_tick-negative : snap_to_tick (negsuc 149) (pos 100) upwards ≡ some (negsuc 199)
unfolding snap_to_tick on_grid quantize round ◌*ℤ◌
snap_to_tick-negative = refl
