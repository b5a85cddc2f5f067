-- ===== src/Lifecycle/Profit.antt =====
-- The profit or loss that `on_exit_filled` of ib_trader/bots/runtime.py records.
use ib_trader.Prelude.{true, ◌≡◌, refl, arith, ◌↔◌}
use ib_trader.Prelude.Int.{ℤ, pos, ◌-ℤ◌, ◌*ℤ◌, ◌<ℤ◌, ltb_ℤ, -ℤ_parts, *ℤ-pos, pos-of-*ℤ}
use ib_trader.Lifecycle.Doc.{long, short}
use ib_trader.Lifecycle.ExitFill.{realized_pnl}

module _ (gain qty multiplier : ℤ) (q : pos 0 <ℤ qty) (m : pos 0 <ℤ multiplier) where
  result_pos : pos 0 <ℤ gain → pos 0 <ℤ gain *ℤ qty *ℤ multiplier
  result_pos g = *ℤ-pos (gain *ℤ qty) multiplier m (*ℤ-pos gain qty q g)

  pos_of_result : pos 0 <ℤ gain *ℤ qty *ℤ multiplier → pos 0 <ℤ gain
  pos_of_result r = pos-of-*ℤ gain qty q (pos-of-*ℤ (gain *ℤ qty) multiplier m r)

-- The sign of a recorded result: with a positive entry price, quantity and multiplier, a long
-- gains exactly when the exit price is above the entry price, a short when it is below; and a
-- short's result is the long's with the two prices exchanged.
pub realized_pnl_sign :
    (entry_price price qty multiplier : ℤ)
    → pos 0 <ℤ entry_price
    → pos 0 <ℤ price
    → pos 0 <ℤ qty
    → pos 0 <ℤ multiplier
    → ((pos 0 <ℤ realized_pnl long entry_price price qty multiplier) ↔ (entry_price <ℤ price))
      × ((pos 0 <ℤ realized_pnl short entry_price price qty multiplier) ↔ (price <ℤ entry_price))
      × (realized_pnl short entry_price price qty multiplier
          ≡ realized_pnl long price entry_price qty multiplier)
unfolding realized_pnl
realized_pnl_sign entry_price price qty multiplier e p q m =
    let entered : ltb_ℤ (pos 0) entry_price ≡ true = ground arith in
    let left : ltb_ℤ (pos 0) price ≡ true = ground arith in
    let up = price -ℤ entry_price in
    let down = entry_price -ℤ price in
    rw (entered, left)
      (
        (
          λ h. omega (arith, pos_of_result up qty multiplier q m h, -ℤ_parts price entry_price),
          λ h. result_pos up qty multiplier q m (omega (arith, -ℤ_parts price entry_price)),
        ),
        (
          λ h. omega (arith, pos_of_result down qty multiplier q m h, -ℤ_parts entry_price price),
          λ h. result_pos down qty multiplier q m (omega (arith, -ℤ_parts entry_price price)),
        ),
        refl,
      )
