-- ===== src/SmartMarket/Floor.antt =====
-- `_slippage_floor` of ib_trader/engine/order.py: the cap that the walker starts with.
use native.Mathlib.Nat.{mul-le-mul_left, mul-le-mul_right}
use ib_trader.Prelude.{ℕ, ◌+◌, ◌-◌, ◌*◌, ◌≤◌, ◌<◌, ◌≡◌, refl, ◌∙◌, ap, sym, subst, arith}
use ib_trader.Prelude.Int.{
  ℤ, pos, ◌+ℤ◌, ◌-ℤ◌, ◌*ℤ◌, ◌≤ℤ◌, -ℤ_parts, +ℤ_parts, *ℤ_parts, eq_of_parts,
}
use ib_trader.Pricing.{half_even, round, quantize, Side, buy, sell}
use ib_trader.Pricing.Nearest.{round_mono, round_multiple}
use ib_trader.Pricing.Multiples.{IsMultiple}
use ib_trader.SmartMarket.{slippage_floor}
use ib_trader.SmartMarket.Cap.{IsWithin}

pos_times : (a b : ℕ) → pos a *ℤ pos b ≡ pos (a * b)
pos_times a b = eq_of_parts _ _ (grind (arith, *ℤ_parts (pos a) (pos b)))

pos_minus : (a b : ℕ) → b ≤ a → pos a -ℤ pos b ≡ pos (a - b)
pos_minus a b h = eq_of_parts _ _ (omega (arith, -ℤ_parts (pos a) (pos b)))

pos_plus : (a b : ℕ) → pos a +ℤ pos b ≡ pos (a + b)
pos_plus a b = eq_of_parts _ _ (omega (arith, +ℤ_parts (pos a) (pos b)))

floor_of :
    (price share d cent : ℕ)
    → quantize half_even (pos price *ℤ pos share) d *ℤ pos cent
      ≡ pos (round half_even (price * share) d * cent)
unfolding quantize
floor_of price share d cent =
    ap (λ (v : ℤ). quantize half_even v d *ℤ pos cent) (pos_times price share)
    ∙ pos_times (round half_even (price * share) d) cent

whole_round :
    (k cent whole : ℕ) → 0 < cent * whole → round half_even (k * cent * whole) (cent * whole) ≡ k
whole_round k cent whole p =
    let e : k * cent * whole ≡ k * (cent * whole) = grind arith in
    ap (λ (n : ℕ). round half_even n (cent * whole)) e ∙ round_multiple half_even k (cent * whole) p

minus_le : (a b : ℕ) → a - b ≤ a
minus_le a b = omega arith

le_plus : (a b : ℕ) → a ≤ a + b
le_plus a b = omega arith

add_zero : {a b : ℕ} → a ≤ b → pos a ≤ℤ pos b
add_zero h = omega arith

product_pos : (a b : ℕ) → 0 < a → 0 < b → 0 < a * b
product_pos a b h k = grind arith

-- The floor stands on the cents, and the price that the walker starts at is within it, for either
-- side and every percentage from nothing to the whole.
pub slippage_floor_lem :
    (k slip whole cent : ℕ) (side : Side)
    → 0 < cent
    → 0 < whole
    → slip ≤ whole
    → let floor = slippage_floor (pos (k * cent)) side (pos slip) whole cent in
      IsMultiple cent floor × IsWithin side floor (pos (k * cent))
unfolding slippage_floor
slippage_floor_lem k slip whole cent sell p q h =
    let d = cent * whole in
    let less =
      round_mono half_even (k * cent * (whole - slip)) (k * cent * whole) d
        (product_pos cent whole p q) (mul-le-mul_left (k * cent) (minus_le whole slip)) in
    let under : round half_even (k * cent * (whole - slip)) d ≤ k =
      omega (arith, less, whole_round k cent whole (product_pos cent whole p q)) in
    let value =
      ap (λ (v : ℤ). quantize half_even (pos (k * cent) *ℤ v) d *ℤ pos cent)
        (pos_minus whole slip h)
      ∙ floor_of (k * cent) (whole - slip) d cent in
    (
      (quantize half_even (pos (k * cent) *ℤ (pos whole -ℤ pos slip)) d, refl),
      subst (λ (v : ℤ). v ≤ℤ pos (k * cent)) (sym value) (add_zero (mul-le-mul_right cent under)),
    )
slippage_floor_lem k slip whole cent buy p q h =
    let d = cent * whole in
    let more =
      round_mono half_even (k * cent * whole) (k * cent * (whole + slip)) d
        (product_pos cent whole p q) (mul-le-mul_left (k * cent) (le_plus whole slip)) in
    let over : k ≤ round half_even (k * cent * (whole + slip)) d =
      omega (arith, more, whole_round k cent whole (product_pos cent whole p q)) in
    let value =
      ap (λ (v : ℤ). quantize half_even (pos (k * cent) *ℤ v) d *ℤ pos cent) (pos_plus whole slip)
      ∙ floor_of (k * cent) (whole + slip) d cent in
    (
      (quantize half_even (pos (k * cent) *ℤ (pos whole +ℤ pos slip)) d, refl),
      subst (λ (v : ℤ). pos (k * cent) ≤ℤ v) (sym value) (add_zero (mul-le-mul_right cent over)),
    )
