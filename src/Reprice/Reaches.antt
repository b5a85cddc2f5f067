-- ===== src/Reprice/Reaches.antt =====
-- Where the reprice loop of ib_trader/engine/order.py gets to.
use ib_trader.Prelude.{
  ℕ, suc, ◌+◌, ◌%◌, ◌<◌, true, false, List, [], ◌∷◌, some, if◌then◌else◌, ◌≡◌, ◌≢◌, refl, subst,
  ◌∙◌, ap, sym, inl, inr, All, length, Bool-cases, arith,
}
use ib_trader.Prelude.Int.{ℤ, pos, ◌≤ℤ◌, abs_ℤ, eqb_ℤ}
use ib_trader.Pricing.{Side, is_on_tick, calc_mid}
use ib_trader.Pricing.Snap.{zero_of_test}
use ib_trader.Pricing.Steps.{
  IsPortion, IsTowards, target_of, step_value, step_mono, step_first, step_last,
  calc_step_price_value,
}
use ib_trader.SmartMarket.{get_prices, market}
use ib_trader.Reprice.{Observed, all_steps, Repriced, hold, amend, reprice_step, reprice_loop}
use mathlib.Core.Option.{some-injective}

-- A step in which the order is neither filled nor cancelled, the market stands at a bid and an ask,
-- and the broker takes the amendment.
pub record IsCalm (bid ask : ℤ) (r : Observed) : Type 0 where
  pub unfilled : r.filled_before ≡ false
  pub uncanceled : r.canceled_before ≡ false
  pub still_unfilled : r.filled_after ≡ false
  pub still_uncanceled : r.canceled_after ≡ false
  pub quoted : market (get_prices r.cached r.snapshot) ≡ some (bid, ask)
  pub taken : r.accepted ≡ true

-- Each price is another one than the last, further towards the far side.
abbrev pub IsChain : Side → ℤ → List ℤ → Type 0
IsChain side last [] = Unit
IsChain side last (p ∷ ps) = IsTowards side last p × (p ≢ last) × IsChain side p ps

equal_of_eqb : (a b : ℤ) → eqb_ℤ a b ≡ true → a ≡ b
equal_of_eqb a b h = ground arith

unequal_of_eqb : (a b : ℤ) → eqb_ℤ a b ≡ false → a ≢ b
unequal_of_eqb a b h = ground arith

pos-suc : (t : ℕ) → 0 < suc t
pos-suc t = omega arith

module _ (portion : ℕ → ℕ → ℤ → ℤ) (fair : IsPortion portion) (side : Side) (total t : ℕ)
    (bid ask : ℤ) where
  abbrev value : ℕ → ℤ
  value s = step_value portion fair bid ask s total side (suc t)

  calm_step :
      (s : ℕ) (last : ℤ) (r : Observed)
      → 0 < total
      → IsCalm bid ask r
      → reprice_step portion side total (pos (suc t)) s last r
        ≡ (if eqb_ℤ (value s) last then hold else amend (value s))
  unfolding reprice_step
  calm_step s last r q c =
      rw
        (
          c.unfilled,
          c.uncanceled,
          c.still_unfilled,
          c.still_uncanceled,
          c.quoted,
          c.taken,
          calc_step_price_value portion fair bid ask s total side t q,
        )
        refl

  abbrev loop : ℕ → ℤ → List Observed → Repriced
  loop = reprice_loop portion side total (pos (suc t))

  -- What the loop comes to from a step whose price was sent.
  abbrev IsDone : ℤ → Repriced → Type 0
  IsDone last w =
      (w.ending ≡ all_steps) × (w.last_sent_price ≡ value total) × IsChain side last w.amends

  hold_round :
      (s : ℕ) (last : ℤ) (r : Observed) (rounds : List Observed)
      → reprice_step portion side total (pos (suc t)) s last r ≡ hold
      → IsDone last (loop (suc s) last rounds)
      → IsDone last (loop s last (r ∷ rounds))
  unfolding reprice_loop
  hold_round s last r rounds h done = rw (h, reprice_loop) done

  amend_round :
      (s : ℕ) (last p : ℤ) (r : Observed) (rounds : List Observed)
      → reprice_step portion side total (pos (suc t)) s last r ≡ amend p
      → IsTowards side last p
      → p ≢ last
      → IsDone p (loop (suc s) p rounds)
      → IsDone last (loop s last (r ∷ rounds))
  unfolding reprice_loop
  amend_round s last p r rounds h towards moved (done, end, chain) =
      rw (h, reprice_loop) (done, end, (towards, moved, chain))

  loop-IsDone :
      (s : ℕ) (last : ℤ) (rounds : List Observed)
      → 0 < total
      → abs_ℤ bid % suc t ≡ 0
      → abs_ℤ ask % suc t ≡ 0
      → bid ≤ℤ ask
      → last ≡ value s
      → s + length rounds ≡ total
      → All (IsCalm bid ask) rounds
      → IsDone last (loop (suc s) last rounds)
  unfolding reprice_loop
  loop-IsDone s last [] q onb ona order at n all = (refl, at ∙ ap value (omega (arith, n)), tt)
  loop-IsDone s last (r ∷ rounds) q onb ona order at n (c, all) =
      let step = calm_step (suc s) last r q c in
      let on = λ (l : ℤ) (e : l ≡ value (suc s)).
        loop-IsDone (suc s) l rounds q onb ona order e (omega (arith, n)) all in
      elim (Bool-cases (eqb_ℤ (value (suc s)) last)) [
        | inl same ↦
            hold_round (suc s) last r rounds (step ∙ rw same refl)
              (on last (sym (equal_of_eqb (value (suc s)) last same)))
        | inr other ↦
            amend_round (suc s) last (value (suc s)) r rounds (step ∙ rw other refl)
              (subst (λ (x : ℤ). IsTowards side x (value (suc s))) (sym at)
                (step_mono portion fair bid ask s (suc s) total side (suc t) (omega arith) q
                  (omega arith) onb ona order))
              (unequal_of_eqb (value (suc s)) last other) (on (value (suc s)) refl)
      ]

  -- The loop reaches the far side: from the middle, where the market stands still on the grid and
  -- the order is neither filled nor cancelled, all steps are made, each amendment is to a new price
  -- further towards the far side, and the last price sent is the far side exactly.
  pub reprice_loop_reaches :
      (mid : ℤ) (rounds : List Observed)
      → 0 < total
      → length rounds ≡ total
      → is_on_tick bid (pos (suc t)) ≡ some true
      → is_on_tick ask (pos (suc t)) ≡ some true
      → bid ≤ℤ ask
      → calc_mid bid ask (pos (suc t)) ≡ some mid
      → All (IsCalm bid ask) rounds
      → let w = reprice_loop portion side total (pos (suc t)) 1 mid rounds in
        (w.ending ≡ all_steps)
        × (w.last_sent_price ≡ target_of side bid ask)
        × IsChain side mid w.amends
  unfolding calc_mid is_on_tick
  reprice_loop_reaches mid rounds q n onb ona order at all =
      let onb' = zero_of_test _ (some-injective _ _ onb) in
      let ona' = zero_of_test _ (some-injective _ _ ona) in
      let begin =
        sym (some-injective _ _ at)
        ∙ sym (step_first portion fair bid ask total side (suc t) (pos-suc t) q) in
      let (done, end, chain) =
        loop-IsDone 0 mid rounds q onb' ona' order begin (omega (arith, n)) all in
      (done, end ∙ step_last portion fair bid ask total side (suc t) (pos-suc t) q onb' ona', chain)
