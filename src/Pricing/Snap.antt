-- ===== src/Pricing/Snap.antt =====
-- Prices on the tick grid, ib_trader/engine/ticks.py and pricing.py.
use native.Mathlib.Nat.{mul-mod_left, mod-add-div', mul-le-mul_right}
use mathlib.Core.Option.{some-injective}
use ib_trader.Prelude.{
  ℕ, suc, ◌*◌, ◌/◌, ◌%◌, ◌<◌, true, some, ◌==◌, ◌≡◌, ◌≢◌, refl, ◌∙◌, ap, sym, arith,
}
use ib_trader.Prelude.Int.{ℤ, pos, negsuc, ◌*ℤ◌, ◌≤ℤ◌, neg_ℤ, abs_ℤ, *ℤ_parts, eq_of_parts}
use ib_trader.Pricing.{
  Rounding, half_even, half_up, up, down, round, quantize, on_grid, Direction, nearest, upwards,
  downwards, unknown, snap_to_tick, is_on_tick, snap,
}
use ib_trader.Pricing.Nearest.{IsNear, round-IsNear, round_mono, round_multiple}

pub quantize_mono :
    (mode : Rounding) (v w : ℤ) (d : ℕ) → 0 < d → v ≤ℤ w → quantize mode v d ≤ℤ quantize mode w d
unfolding quantize
quantize_mono mode (pos n) (pos m) d p h = ground (arith, round_mono mode n m d p)
quantize_mono mode (pos n) (negsuc m) d p h = absurd (omega arith)
quantize_mono mode (negsuc n) (pos m) d p h = ground arith
quantize_mono mode (negsuc n) (negsuc m) d p h = ground (arith, round_mono mode (suc m) (suc n) d p)

-- A magnitude with the sign of a number.
abbrev pub signed : ℤ → ℕ → ℤ
signed (pos n) k = pos k
signed (negsuc n) k = neg_ℤ (pos k)

quantize-signed :
    (mode : Rounding) (v : ℤ) (d : ℕ) → quantize mode v d ≡ signed v (round mode (abs_ℤ v) d)
unfolding quantize
quantize-signed mode (pos n) d = ap (λ (t : ℕ). pos (round mode t d)) (omega arith)
quantize-signed mode (negsuc n) d = ap (λ (t : ℕ). neg_ℤ (pos (round mode t d))) (omega arith)

signed-* : (v : ℤ) (k d : ℕ) → signed v k *ℤ pos d ≡ signed v (k * d)
signed-* (pos n) k d = eq_of_parts _ _ (grind (arith, *ℤ_parts (pos k) (pos d)))
signed-* (negsuc n) k d = eq_of_parts _ _ (grind (arith, *ℤ_parts (neg_ℤ (pos k)) (pos d)))

abs_signed : (v : ℤ) (k : ℕ) → abs_ℤ (signed v k) ≡ k
abs_signed (pos n) k = omega arith
abs_signed (negsuc n) k = ground arith

pub signed_abs : (v : ℤ) → signed v (abs_ℤ v) ≡ v
signed_abs (pos n) = ground arith
signed_abs (negsuc n) = ground arith

pub zero_of_test : (n : ℕ) → (n == 0) ≡ true → n ≡ 0
zero_of_test n h = ground arith

on_grid-signed :
    (mode : Rounding) (v : ℤ) (t : ℕ) → on_grid mode v t ≡ signed v (round mode (abs_ℤ v) t * t)
unfolding on_grid
on_grid-signed mode v t =
    ap (λ (q : ℤ). q *ℤ pos t) (quantize-signed mode v t) ∙ signed-* v (round mode (abs_ℤ v) t) t

pub on_grid_mod : (mode : Rounding) (v : ℤ) (t : ℕ) → abs_ℤ (on_grid mode v t) % t ≡ 0
on_grid_mod mode v t =
    ap (λ (q : ℤ). abs_ℤ q % t) (on_grid-signed mode v t)
    ∙ ap (λ (n : ℕ). n % t) (abs_signed v (round mode (abs_ℤ v) t * t))
    ∙ mul-mod_left (round mode (abs_ℤ v) t) t

pub on_grid_fixed :
    (mode : Rounding) (v : ℤ) (t : ℕ) → 0 < t → abs_ℤ v % t ≡ 0 → on_grid mode v t ≡ v
on_grid_fixed mode v t p h =
    let whole : abs_ℤ v / t * t ≡ abs_ℤ v = omega (arith, mod-add-div' (abs_ℤ v) t, h) in
    on_grid-signed mode v t
    ∙ ap (λ (n : ℕ). signed v (round mode n t * t)) (sym whole)
    ∙ ap (λ (n : ℕ). signed v (n * t)) (round_multiple mode (abs_ℤ v / t) t p)
    ∙ ap (signed v) whole
    ∙ signed_abs v

-- The price is not lower than one that lies below it.
pub *ℤ_mono : (a b : ℤ) (t : ℕ) → a ≤ℤ b → a *ℤ pos t ≤ℤ b *ℤ pos t
*ℤ_mono a b t h = grind (arith, *ℤ_parts a (pos t), *ℤ_parts b (pos t), mul-le-mul_right t h)

pub on_grid_mono :
    (mode : Rounding) (v w : ℤ) (t : ℕ) → 0 < t → v ≤ℤ w → on_grid mode v t ≤ℤ on_grid mode w t
unfolding on_grid
on_grid_mono mode v w t p h =
    *ℤ_mono (quantize mode v t) (quantize mode w t) t (quantize_mono mode v w t p h)

abbrev pub rounding_of : Direction → Rounding
rounding_of nearest = half_up
rounding_of upwards = up
rounding_of downwards = down
rounding_of unknown = down

on_grid-IsNear :
    (mode : Rounding) (v : ℤ) (t : ℕ)
    → (k : ℕ) × (on_grid mode v (suc t) ≡ signed v (k * suc t))
      × (is_on_tick (signed v (k * suc t)) (pos (suc t)) ≡ some true)
      × IsNear mode k (abs_ℤ v) (suc t)
unfolding is_on_tick
on_grid-IsNear mode v t =
    let k = round mode (abs_ℤ v) (suc t) in
    (
      k,
      on_grid-signed mode v (suc t),
      rw (abs_signed v (k * suc t), mul-mod_left k (suc t)) refl,
      round-IsNear mode (abs_ℤ v) (suc t) (omega arith),
    )

snap_to_tick_grid :
    (price : ℤ) (t : ℕ) (d : Direction)
    → d ≢ unknown
    → snap_to_tick price (pos (suc t)) d ≡ some (on_grid (rounding_of d) price (suc t))
unfolding snap_to_tick
snap_to_tick_grid price t nearest h = refl
snap_to_tick_grid price t upwards h = refl
snap_to_tick_grid price t downwards h = refl
snap_to_tick_grid price t unknown h = absurd (h refl)

-- In each direction the snapped price stands on the grid, has the sign of the price, and its
-- magnitude is near: within half a tick for "nearest", at least the price's and less than a tick
-- more for "up", at most the price's and less than a tick less for "down".
pub snap_to_tick_lem :
    (price : ℤ) (t : ℕ) (d : Direction)
    → d ≢ unknown
    → (k : ℕ) × (snap_to_tick price (pos (suc t)) d ≡ some (signed price (k * suc t)))
      × (is_on_tick (signed price (k * suc t)) (pos (suc t)) ≡ some true)
      × IsNear (rounding_of d) k (abs_ℤ price) (suc t)
snap_to_tick_lem price t d h =
    let (k, e, on, near) = on_grid-IsNear (rounding_of d) price t in
    (k, snap_to_tick_grid price t d h ∙ ap some e, on, near)

-- A price on the grid is left as it is, by every direction and by the snapping of pricing.py, so
-- snapping twice is snapping once.
pub snap_on_tick :
    (price tick_size : ℤ) (d : Direction)
    → d ≢ unknown
    → is_on_tick price tick_size ≡ some true
    → (snap_to_tick price tick_size d ≡ some price) × (snap price tick_size ≡ some price)
unfolding is_on_tick snap snap_to_tick
snap_on_tick price (pos ℕ.zero) d h on = cc
snap_on_tick price (negsuc t) d h on = cc
snap_on_tick price (pos (suc t)) d h on =
    let fixed = λ (mode : Rounding).
      ap some
        (on_grid_fixed mode price (suc t) (omega arith) (zero_of_test _ (some-injective _ _ on))) in
    (snap_to_tick_grid price t d h ∙ fixed (rounding_of d), fixed half_even)
