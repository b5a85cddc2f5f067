-- ===== src/Pricing/Multiples.antt =====
-- The tick grid of ib_trader/engine/pricing.py as the multiples of the tick.
use mathlib.Core.Path.{subst₂}
use ib_trader.Prelude.{ℕ, ◌%◌, ◌<◌, ◌≡◌, refl, subst, ◌∙◌, ap, sym, ◌⊎◌, inl, inr, arith}
use ib_trader.Prelude.Int.{ℤ, pos, ◌+ℤ◌, ◌-ℤ◌, ◌*ℤ◌, ◌≤ℤ◌, ◌<ℤ◌, abs_ℤ, int_laws}
use ib_trader.Prelude.Ring.{+ℤ-*ℤ, -ℤ-*ℤ}
use ib_trader.Pricing.{Rounding, on_grid, quantize}
use ib_trader.Pricing.Snap.{on_grid_fixed, *ℤ_mono}
use ib_trader.Pricing.Steps.{*ℤ_mod}

abbrev pub IsMultiple : ℕ → ℤ → Type 0
IsMultiple t v = (k : ℤ) × (v ≡ k *ℤ pos t)

one_times : (t : ℕ) → pos 1 *ℤ pos t ≡ pos t
unfolding ◌*ℤ◌
one_times t = grind arith

one_more : (t : ℕ) (k : ℤ) → (k +ℤ pos 1) *ℤ pos t ≡ k *ℤ pos t +ℤ pos t
one_more t k = +ℤ-*ℤ k (pos 1) (pos t) ∙ ap (λ (x : ℤ). k *ℤ pos t +ℤ x) (one_times t)

one_less : (t : ℕ) (k : ℤ) → (k -ℤ pos 1) *ℤ pos t ≡ k *ℤ pos t -ℤ pos t
one_less t k = -ℤ-*ℤ k (pos 1) (pos t) ∙ ap (λ (x : ℤ). k *ℤ pos t -ℤ x) (one_times t)

pub IsMultiple-add : (t : ℕ) (v : ℤ) → IsMultiple t v → IsMultiple t (v +ℤ pos t)
IsMultiple-add t v (k, e) = (k +ℤ pos 1, ap (λ (x : ℤ). x +ℤ pos t) e ∙ sym (one_more t k))

pub IsMultiple-sub : (t : ℕ) (v : ℤ) → IsMultiple t v → IsMultiple t (v -ℤ pos t)
IsMultiple-sub t v (k, e) = (k -ℤ pos 1, ap (λ (x : ℤ). x -ℤ pos t) e ∙ sym (one_less t k))

pub on_grid-IsMultiple : (mode : Rounding) (v : ℤ) (t : ℕ) → IsMultiple t (on_grid mode v t)
unfolding on_grid
on_grid-IsMultiple mode v t = (quantize mode v t, refl)

pub on_grid_multiple :
    (mode : Rounding) (t : ℕ) (v : ℤ) → 0 < t → IsMultiple t v → on_grid mode v t ≡ v
on_grid_multiple mode t v p (k, e) =
    on_grid_fixed mode v t p (ap (λ (x : ℤ). abs_ℤ x % t) e ∙ *ℤ_mod k t)

lt_or_ge : (k l : ℤ) → (k +ℤ pos 1 ≤ℤ l) ⊎ (l ≤ℤ k)
unfolding ◌+ℤ◌
lt_or_ge k l = ground arith

factor_gap : (t : ℕ) (k l : ℤ) → k *ℤ pos t <ℤ l *ℤ pos t → k *ℤ pos t +ℤ pos t ≤ℤ l *ℤ pos t
factor_gap t k l h = elim (lt_or_ge k l) [
  | inl le ↦ subst (λ (x : ℤ). x ≤ℤ l *ℤ pos t) (one_more t k) (*ℤ_mono (k +ℤ pos 1) l t le)
  | inr ge ↦ absurd (omega (int_laws, *ℤ_mono l k t ge))
]

-- Two different multiples are a tick apart.
pub multiple_gap : (t : ℕ) (v w : ℤ) → IsMultiple t v → IsMultiple t w → v <ℤ w → v +ℤ pos t ≤ℤ w
multiple_gap t v w (k, e) (l, f) =
    subst₂ (λ (x y : ℤ). x <ℤ y → x +ℤ pos t ≤ℤ y) (sym e) (sym f) (factor_gap t k l)
