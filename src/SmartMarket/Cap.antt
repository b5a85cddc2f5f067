-- ===== src/SmartMarket/Cap.antt =====
-- The cap of the SMART_MARKET walker in ib_trader/engine/order.py.
use ib_trader.Prelude.{ℕ, ◌<◌, ◌≡◌, subst, sym, ◌⊎◌, inl, inr, arith}
use ib_trader.Prelude.Int.{
  ℤ, pos, ◌+ℤ◌, ◌-ℤ◌, ◌≤ℤ◌, ◌<ℤ◌, max_ℤ, min_ℤ, +ℤ_parts, -ℤ_parts, int_laws,
}
use ib_trader.Pricing.{half_even, on_grid, Side, buy, sell}
use ib_trader.Pricing.Snap.{on_grid_mono}
use ib_trader.Pricing.Multiples.{
  IsMultiple, IsMultiple-add, IsMultiple-sub, on_grid_multiple, multiple_gap,
}
use ib_trader.SmartMarket.{apply_cap, step_price}

-- On the right side of the cap.
abbrev pub IsWithin : Side → ℤ → ℤ → Type 0
IsWithin sell floor price = floor ≤ℤ price
IsWithin buy floor price = price ≤ℤ floor

-- From one price to another at least a cent further towards the far side.
abbrev pub IsStep : Side → ℕ → ℤ → ℤ → Type 0
IsStep sell cent last price = price +ℤ pos cent ≤ℤ last
IsStep buy cent last price = last +ℤ pos cent ≤ℤ price

pub step_price-IsStep :
    (side : Side) (last bid ask : ℤ) (c : ℕ) → IsStep side c last (step_price side last bid ask c)
step_price-IsStep sell last bid ask c =
    ground (arith, -ℤ_parts last (pos c), +ℤ_parts (last -ℤ pos c) (pos c), +ℤ_parts bid (pos c))
step_price-IsStep buy last bid ask c = ground (arith, +ℤ_parts last (pos c))

-- The price that is sent, between the last one and the cap.
abbrev pub sent : Side → ℤ → ℤ → ℕ → ℤ
sent side price floor c = on_grid half_even (apply_cap price floor side) c

eq_or_lt : (a b : ℤ) → a ≤ℤ b → (b ≡ a) ⊎ (a <ℤ b)
eq_or_lt a b h = ground arith

max_of_lower : (a b : ℤ) (c : ℕ) → a +ℤ pos c ≤ℤ b → max_ℤ a b ≡ b
max_of_lower a b c h = ground (arith, +ℤ_parts a (pos c))

min_of_higher : (a b : ℤ) (c : ℕ) → b +ℤ pos c ≤ℤ a → min_ℤ a b ≡ b
min_of_higher a b c h = ground (arith, +ℤ_parts b (pos c))

max_below : (a b l : ℤ) (c : ℕ) → a +ℤ pos c ≤ℤ l → b +ℤ pos c ≤ℤ l → max_ℤ a b ≤ℤ l -ℤ pos c
max_below a b l c h k = ground (arith, +ℤ_parts a (pos c), +ℤ_parts b (pos c), -ℤ_parts l (pos c))

min_above : (a b l : ℤ) (c : ℕ) → l +ℤ pos c ≤ℤ a → l +ℤ pos c ≤ℤ b → l +ℤ pos c ≤ℤ min_ℤ a b
min_above a b l c h k = ground arith

within_max : (a b : ℤ) → b ≤ℤ max_ℤ a b
within_max a b = ground arith

within_min : (a b : ℤ) → min_ℤ a b ≤ℤ b
within_min a b = ground arith

-- The price that is sent does not pass the cap, and it is a cent further than the last one at least,
-- but where the walker stands at the cap.
pub sent_lem :
    (side : Side) (last floor step : ℤ) (c : ℕ)
    → 0 < c
    → IsMultiple c last
    → IsMultiple c floor
    → IsWithin side floor last
    → IsStep side c last step
    → IsWithin side floor (sent side step floor c)
      × (((last ≡ floor) × (apply_cap step floor side ≡ floor))
          ⊎ IsStep side c last (sent side step floor c))
sent_lem sell last floor step c p m n w s =
    let x = max_ℤ step floor in
    let fixed = on_grid_multiple half_even c floor p n in
    let up = on_grid_mono half_even floor x c p (within_max step floor) in
    (
      subst (λ (y : ℤ). y ≤ℤ on_grid half_even x c) fixed up,
      elim (eq_or_lt floor last w) [
        | inl e ↦ inl (e, max_of_lower step floor c (subst (λ (y : ℤ). step +ℤ pos c ≤ℤ y) e s))
        | inr lt ↦
            let low = max_below step floor last c s (multiple_gap c floor last n m lt) in
            let down = on_grid_mono half_even x (last -ℤ pos c) c p low in
            let last_fixed =
              on_grid_multiple half_even c (last -ℤ pos c) p (IsMultiple-sub c last m) in
            let below = subst (λ (y : ℤ). on_grid half_even x c ≤ℤ y) last_fixed down in
            inr (omega (int_laws, below))
      ],
    )
sent_lem buy last floor step c p m n w s =
    let x = min_ℤ step floor in
    let fixed = on_grid_multiple half_even c floor p n in
    let down = on_grid_mono half_even x floor c p (within_min step floor) in
    (
      subst (λ (y : ℤ). on_grid half_even x c ≤ℤ y) fixed down,
      elim (eq_or_lt last floor w) [
        | inl e ↦
            inl
              (sym e, min_of_higher step floor c (subst (λ (y : ℤ). y +ℤ pos c ≤ℤ step) (sym e) s))
        | inr lt ↦
            let high = min_above step floor last c s (multiple_gap c last floor m n lt) in
            let up = on_grid_mono half_even (last +ℤ pos c) x c p high in
            let last_fixed =
              on_grid_multiple half_even c (last +ℤ pos c) p (IsMultiple-add c last m) in
            inr (subst (λ (y : ℤ). y ≤ℤ on_grid half_even x c) last_fixed up)
      ],
    )
