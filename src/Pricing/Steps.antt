-- ===== src/Pricing/Steps.antt =====
-- The prices of the reprice steps, `calc_step_price` of ib_trader/engine/pricing.py.
use native.Mathlib.Nat.{mul-mod_left, mod-add-div'}
use mathlib.Core.Option.{some-injective}
use ib_trader.Prelude.{
  ℕ, suc, ◌*◌, ◌/◌, ◌%◌, ◌≤◌, ◌<◌, true, some, ◌≡◌, refl, subst, ◌∙◌, ap, sym, arith,
}
use ib_trader.Prelude.Int.{
  ℤ, pos, negsuc, ◌+ℤ◌, ◌-ℤ◌, ◌*ℤ◌, ◌≤ℤ◌, abs_ℤ, +ℤ-zero, int_laws, +ℤ_parts, *ℤ_parts, eq_of_parts,
}
use ib_trader.Pricing.{
  half_even, quantize, on_grid, is_on_tick, snap, calc_mid, Side, buy, sell, calc_step_price,
}
use ib_trader.Pricing.Snap.{on_grid_mono, on_grid_fixed, zero_of_test}

abs_double : (v : ℤ) → abs_ℤ (v +ℤ v) ≡ 2 * abs_ℤ v
unfolding ◌+ℤ◌
abs_double (pos n) = ground arith
abs_double (negsuc n) = ground arith

-- The middle of two prices on the grid lies between them.
abbrev pub mid_value : ℤ → ℤ → ℕ → ℤ
mid_value bid ask t = quantize half_even (bid +ℤ ask) (2 * t) *ℤ pos t

-- Twice the middle is the sum of the prices on the grid of two ticks.
mid_twice :
    (bid ask : ℤ) (t : ℕ)
    → on_grid half_even (bid +ℤ ask) (2 * t) ≡ mid_value bid ask t +ℤ mid_value bid ask t
unfolding on_grid
mid_twice bid ask t =
    let q = quantize half_even (bid +ℤ ask) (2 * t) in
    eq_of_parts _ _ (
      grind
        (arith, *ℤ_parts q (pos (2 * t)), *ℤ_parts q (pos t), +ℤ_parts (q *ℤ pos t) (q *ℤ pos t)))

double_fixed :
    (v : ℤ) (t : ℕ) → 0 < t → abs_ℤ v % t ≡ 0 → on_grid half_even (v +ℤ v) (2 * t) ≡ v +ℤ v
double_fixed v t p on =
    let whole : abs_ℤ v / t * (2 * t) ≡ abs_ℤ (v +ℤ v) =
      grind (arith, mod-add-div' (abs_ℤ v) t, on, abs_double v) in
    on_grid_fixed half_even (v +ℤ v) (2 * t) (omega arith)
      (ap (λ (n : ℕ). n % (2 * t)) (sym whole) ∙ mul-mod_left (abs_ℤ v / t) (2 * t))

pub mid_above :
    (bid ask : ℤ) (t : ℕ) → 0 < t → abs_ℤ bid % t ≡ 0 → bid ≤ℤ ask → bid ≤ℤ mid_value bid ask t
mid_above bid ask t p on le =
    let up =
      on_grid_mono half_even (bid +ℤ bid) (bid +ℤ ask) (2 * t) (omega arith)
        (omega (int_laws, le)) in
    let lower =
      subst (λ (x : ℤ). x ≤ℤ on_grid half_even (bid +ℤ ask) (2 * t)) (double_fixed bid t p on) up in
    let both = subst (λ (x : ℤ). bid +ℤ bid ≤ℤ x) (mid_twice bid ask t) lower in
    omega (int_laws, both)

pub mid_below :
    (bid ask : ℤ) (t : ℕ) → 0 < t → abs_ℤ ask % t ≡ 0 → bid ≤ℤ ask → mid_value bid ask t ≤ℤ ask
mid_below bid ask t p on le =
    let up =
      on_grid_mono half_even (bid +ℤ ask) (ask +ℤ ask) (2 * t) (omega arith)
        (omega (int_laws, le)) in
    let upper =
      subst (λ (x : ℤ). on_grid half_even (bid +ℤ ask) (2 * t) ≤ℤ x) (double_fixed ask t p on) up in
    let both = subst (λ (x : ℤ). x ≤ℤ ask +ℤ ask) (mid_twice bid ask t) upper in
    omega (int_laws, both)

abs_times : (q : ℤ) (t : ℕ) → abs_ℤ (q *ℤ pos t) ≡ abs_ℤ q * t
unfolding ◌*ℤ◌
abs_times (pos n) t = grind arith
abs_times (negsuc n) t = grind arith

pub *ℤ_mod : (q : ℤ) (t : ℕ) → abs_ℤ (q *ℤ pos t) % t ≡ 0
*ℤ_mod q t =
    let size : abs_ℤ (q *ℤ pos t) ≡ abs_ℤ q * t = abs_times q t in
    ap (λ (n : ℕ). n % t) size ∙ mul-mod_left (abs_ℤ q) t

mid_on : (bid ask : ℤ) (t : ℕ) → abs_ℤ (mid_value bid ask t) % t ≡ 0
mid_on bid ask t = *ℤ_mod (quantize half_even (bid +ℤ ask) (2 * t)) t

-- What the quotients and products of Decimal keep: the order of the steps, the start and the whole.
pub record IsPortion (portion : ℕ → ℕ → ℤ → ℤ) : Type 0 where
  pub start : (total : ℕ) (d : ℤ) → 0 < total → portion 0 total d ≡ pos 0
  pub whole : (total : ℕ) (d : ℤ) → 0 < total → portion total total d ≡ d
  pub rises :
      (s s' total : ℕ) (d : ℤ)
      → 0 < total
      → s ≤ s'
      → pos 0 ≤ℤ d
      → portion s total d ≤ℤ portion s' total d
  pub falls :
      (s s' total : ℕ) (d : ℤ)
      → 0 < total
      → s ≤ s'
      → d ≤ℤ pos 0
      → portion s' total d ≤ℤ portion s total d

abbrev pub target_of : Side → ℤ → ℤ → ℤ
target_of buy bid ask = ask
target_of sell bid ask = bid

-- From the first price to the second, in the direction of the side.
abbrev pub IsTowards : Side → ℤ → ℤ → Type 0
IsTowards buy a b = a ≤ℤ b
IsTowards sell a b = b ≤ℤ a

lt-suc : (t : ℕ) → 0 < suc t
lt-suc t = omega arith

target_on :
    (bid ask : ℤ) (side : Side) (t : ℕ)
    → abs_ℤ bid % t ≡ 0
    → abs_ℤ ask % t ≡ 0
    → abs_ℤ (target_of side bid ask) % t ≡ 0
target_on bid ask buy t onb ona = ona
target_on bid ask sell t onb ona = onb

module _ (portion : ℕ → ℕ → ℤ → ℤ) (fair : IsPortion portion) where
  abbrev pub step_value : ℤ → ℤ → ℕ → ℕ → Side → ℕ → ℤ
  step_value bid ask step total side t =
      let mid = mid_value bid ask t in
      on_grid half_even (mid +ℤ portion step total (target_of side bid ask -ℤ mid)) t

  pub step_mono :
      (bid ask : ℤ) (s s' total : ℕ) (side : Side) (t : ℕ)
      → 0 < t
      → 0 < total
      → s ≤ s'
      → abs_ℤ bid % t ≡ 0
      → abs_ℤ ask % t ≡ 0
      → bid ≤ℤ ask
      → IsTowards side (step_value bid ask s total side t) (step_value bid ask s' total side t)
  step_mono bid ask s s' total buy t p q le onb ona order =
      let mid = mid_value bid ask t in
      let d = ask -ℤ mid in
      let grow = fair.rises s s' total d q le (omega (int_laws, mid_below bid ask t p ona order)) in
      on_grid_mono half_even (mid +ℤ portion s total d) (mid +ℤ portion s' total d) t p
        (omega (int_laws, grow))
  step_mono bid ask s s' total sell t p q le onb ona order =
      let mid = mid_value bid ask t in
      let d = bid -ℤ mid in
      let grow = fair.falls s s' total d q le (omega (int_laws, mid_above bid ask t p onb order)) in
      on_grid_mono half_even (mid +ℤ portion s' total d) (mid +ℤ portion s total d) t p
        (omega (int_laws, grow))

  pub step_first :
      (bid ask : ℤ) (total : ℕ) (side : Side) (t : ℕ)
      → 0 < t
      → 0 < total
      → step_value bid ask 0 total side t ≡ mid_value bid ask t
  step_first bid ask total side t p q =
      let mid = mid_value bid ask t in
      ap (λ (x : ℤ). on_grid half_even (mid +ℤ x) t)
        (fair.start total (target_of side bid ask -ℤ mid) q)
      ∙ ap (λ (x : ℤ). on_grid half_even x t) (+ℤ-zero mid)
      ∙ on_grid_fixed half_even mid t p (mid_on bid ask t)

  pub step_last :
      (bid ask : ℤ) (total : ℕ) (side : Side) (t : ℕ)
      → 0 < t
      → 0 < total
      → abs_ℤ bid % t ≡ 0
      → abs_ℤ ask % t ≡ 0
      → step_value bid ask total total side t ≡ target_of side bid ask
  step_last bid ask total side t p q onb ona =
      let mid = mid_value bid ask t in
      ap (λ (x : ℤ). on_grid half_even (mid +ℤ x) t)
        (fair.whole total (target_of side bid ask -ℤ mid) q)
      ∙ ap (λ (x : ℤ). on_grid half_even x t) (omega int_laws)
      ∙ on_grid_fixed half_even (target_of side bid ask) t p (target_on bid ask side t onb ona)

  -- `calc_step_price` succeeds at a positive tick with the value above.
  pub calc_step_price_value :
      (bid ask : ℤ) (s total : ℕ) (side : Side) (t : ℕ)
      → 0 < total
      → calc_step_price portion bid ask s total side (pos (suc t))
        ≡ some (step_value bid ask s total side (suc t))
  unfolding calc_step_price calc_mid snap
  calc_step_price_value bid ask s total buy t q = ground arith
  calc_step_price_value bid ask s total sell t q = ground arith

  -- With a market whose prices stand on the grid, the middle lies between bid and ask, and the steps
  -- walk from it towards the far side: a later step is never behind an earlier one, none passes the
  -- far side, and the last one is the far side exactly.
  pub step_prices :
      (bid ask : ℤ) (s s' total : ℕ) (side : Side) (t : ℕ)
      → 0 < total
      → s ≤ s'
      → s' ≤ total
      → is_on_tick bid (pos (suc t)) ≡ some true
      → is_on_tick ask (pos (suc t)) ≡ some true
      → bid ≤ℤ ask
      → (mid : ℤ) × (p : ℤ) × (q : ℤ) × (calc_mid bid ask (pos (suc t)) ≡ some mid)
        × (bid ≤ℤ mid)
        × (mid ≤ℤ ask)
        × (calc_step_price portion bid ask s total side (pos (suc t)) ≡ some p)
        × (calc_step_price portion bid ask s' total side (pos (suc t)) ≡ some q)
        × IsTowards side mid p
        × IsTowards side p q
        × IsTowards side q (target_of side bid ask)
        × (calc_step_price portion bid ask total total side (pos (suc t))
            ≡ some (target_of side bid ask))
  unfolding calc_mid is_on_tick
  step_prices bid ask s s' total side t q le le' onb ona order =
      let onb' = zero_of_test _ (some-injective _ _ onb) in
      let ona' = zero_of_test _ (some-injective _ _ ona) in
      let p : 0 < suc t = lt-suc t in
      let mono =
        λ (a b : ℕ) (h : a ≤ b). step_mono bid ask a b total side (suc t) p q h onb' ona' order in
      let first = step_first bid ask total side (suc t) p q in
      let last = step_last bid ask total side (suc t) p q onb' ona' in
      (
        mid_value bid ask (suc t),
        step_value bid ask s total side (suc t),
        step_value bid ask s' total side (suc t),
        refl,
        mid_above bid ask (suc t) p onb' order,
        mid_below bid ask (suc t) p ona' order,
        calc_step_price_value bid ask s total side t q,
        calc_step_price_value bid ask s' total side t q,
        subst (λ (x : ℤ). IsTowards side x (step_value bid ask s total side (suc t))) first
            (mono 0 s (omega arith)),
        mono s s' le,
        subst (λ (x : ℤ). IsTowards side (step_value bid ask s' total side (suc t)) x) last
            (mono s' total le'),
        calc_step_price_value bid ask total total side t q ∙ ap some last,
      )
