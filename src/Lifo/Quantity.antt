-- ===== src/Lifo/Quantity.antt =====
-- The quantities of `realize_lifo`, ib_trader/engine/lifo_pnl.py.
use ib_trader.Prelude.{
  ◌+◌, zero, suc, true, false, Option, none, List, [], ◌∷◌, ◌≡◌, refl, ◌∙◌, arith, Bool-cases, inl,
  inr, not, ◌&&◌, ◌⊎◌,
}
use ib_trader.Prelude.Int.{
  ℤ, pos, negsuc, pos_part, neg_part, ◌+ℤ◌, ◌-ℤ◌, ◌*ℤ◌, ◌<ℤ◌, eqb_ℤ, neg_ℤ, abs_ℤ, min_ℤ, +ℤ_comm,
  int_laws, *ℤ_parts,
}
use ib_trader.Lifo.Lots.{
  Lot, FillOf, Match, sign, is_closing, matched, add_realized, lot_pnl, match_lots, open_rest,
  realize_lifo, open_qty,
}

-- What one pass of the loop moves out of the remaining quantity and the lot.
abbrev pub moved : Lot → ℤ → ℤ
moved top remaining = sign top.qty *ℤ matched top remaining

pub eqb_parts : (a b : ℤ) → eqb_ℤ a b ≡ true → pos_part a + neg_part b ≡ pos_part b + neg_part a
eqb_parts a b h = ground arith

neg-one-*ℤ : (b : ℤ) → negsuc 0 *ℤ b ≡ pos 0 -ℤ b
neg-one-*ℤ b = omega (int_laws, *ℤ_parts (negsuc 0) b)

one-*ℤ : (b : ℤ) → pos 1 *ℤ b ≡ b
one-*ℤ b = omega (int_laws, *ℤ_parts (pos 1) b)

match_meets :
    (q r : ℤ)
    → not (eqb_ℤ r (pos 0)) && eqb_ℤ (sign q) (neg_ℤ (sign r)) ≡ true
    → let size = min_ℤ (pos (abs_ℤ r)) (pos (abs_ℤ q)) in
      eqb_ℤ (q -ℤ sign q *ℤ size) (pos 0) ≡ false → r +ℤ sign q *ℤ size ≡ pos 0
match_meets (pos zero) (pos n) h k = ground arith
match_meets (pos zero) (negsuc n) h k = ground arith
match_meets (pos (suc q)) (pos n) h k = ground arith
match_meets (pos (suc q)) (negsuc n) h k = grind (int_laws, one-*ℤ)
match_meets (negsuc q) (pos n) h k = grind (int_laws, neg-one-*ℤ)
match_meets (negsuc q) (negsuc n) h k = ground arith

-- A lot that the loop only partly uses has met all that remained.
pub partial_match_ends :
    (top : Lot) (remaining : ℤ)
    → is_closing top remaining ≡ true
    → eqb_ℤ (top.qty -ℤ moved top remaining) (pos 0) ≡ false
    → remaining +ℤ moved top remaining ≡ pos 0
partial_match_ends top remaining = match_meets top.qty remaining

pub sign_up : (a : ℤ) → pos 0 <ℤ a → sign a ≡ pos 1
sign_up (pos zero) h = absurd (omega arith)
sign_up (pos (suc n)) h = refl
sign_up (negsuc n) h = absurd (omega arith)

pub sign_down : (a : ℤ) → a <ℤ pos 0 → sign a ≡ negsuc 0
sign_down (pos n) h = absurd (omega arith)
sign_down (negsuc n) h = refl

pub nonzero-sign : (a : ℤ) → eqb_ℤ a (pos 0) ≡ false → (sign a ≡ pos 1) ⊎ (sign a ≡ negsuc 0)
nonzero-sign (pos zero) h = ground arith
nonzero-sign (pos (suc n)) h = inl refl
nonzero-sign (negsuc n) h = inr refl

pub kept-sign :
    (q r : ℤ)
    → not (eqb_ℤ r (pos 0)) && eqb_ℤ (sign q) (neg_ℤ (sign r)) ≡ true
    → let size = min_ℤ (pos (abs_ℤ r)) (pos (abs_ℤ q)) in
      eqb_ℤ (q -ℤ sign q *ℤ size) (pos 0) ≡ false → sign (q -ℤ sign q *ℤ size) ≡ sign q
kept-sign (pos zero) (pos n) h k = ground arith
kept-sign (pos zero) (negsuc n) h k = ground arith
kept-sign (pos (suc q)) (pos n) h k = ground arith
kept-sign (pos (suc q)) (negsuc n) h k =
    let size = min_ℤ (pos (abs_ℤ (negsuc n))) (pos (abs_ℤ (pos (suc q)))) in
    sign_up (pos (suc q) -ℤ pos 1 *ℤ size) (grind (int_laws, one-*ℤ))
kept-sign (negsuc q) (pos n) h k =
    let size = min_ℤ (pos (abs_ℤ (pos n))) (pos (abs_ℤ (negsuc q))) in
    sign_down (negsuc q -ℤ negsuc 0 *ℤ size) (grind (int_laws, neg-one-*ℤ))
kept-sign (negsuc q) (negsuc n) h k = ground arith

pub same_side :
    (q r s : ℤ)
    → (s ≡ pos 1) ⊎ (s ≡ negsuc 0)
    → sign q ≡ s
    → not (eqb_ℤ r (pos 0)) && eqb_ℤ (sign q) (neg_ℤ (sign r)) ≡ false
    → eqb_ℤ r (pos 0) ≡ false
    → sign r ≡ s
same_side q r s hs e h k = grind arith

module _ (div : ℤ → ℤ → ℤ) (multiplier : ℤ) where
  pub match_lots-open_qty :
      (fill : FillOf) (remaining : ℤ) (realized : Option ℤ) (lots : List Lot)
      → let m = match_lots div multiplier fill remaining realized lots in
        m.remaining +ℤ open_qty m.lots ≡ remaining +ℤ open_qty lots
  unfolding match_lots
  match_lots-open_qty fill remaining realized [] = refl
  match_lots-open_qty fill remaining realized (top ∷ lots) =
      let size = matched top remaining in
      let ih =
        match_lots-open_qty fill (remaining +ℤ moved top remaining)
          (add_realized realized (lot_pnl div multiplier fill top size)) lots in
      elim (Bool-cases (is_closing top remaining)) [
        | inr h ↦ rw h refl
        | inl h ↦ elim (Bool-cases (eqb_ℤ (top.qty -ℤ moved top remaining) (pos 0))) [
          | inr k ↦ rw (h, k) (omega int_laws)
          | inl k ↦
              rw (h, k)
                (ih ∙ omega (int_laws, eqb_parts (top.qty -ℤ moved top remaining) (pos 0) k))
        ]
      ]

  pub open_rest-open_qty :
      (fill : FillOf) (m : Match)
      → open_qty (open_rest div multiplier fill m) ≡ m.remaining +ℤ open_qty m.lots
  unfolding open_rest
  open_rest-open_qty fill m = elim (Bool-cases (eqb_ℤ m.remaining (pos 0))) [
    | inl h ↦ rw h (omega (int_laws, eqb_parts m.remaining (pos 0) h))
    | inr h ↦ rw h refl
  ]

  -- The open quantity after a fill is the one before it and the fill's, whatever the lots are.
  pub realize_lifo-open_qty :
      (fill : FillOf) (lots : List Lot)
      → open_qty (realize_lifo div multiplier fill lots).0 ≡ open_qty lots +ℤ fill.qty
  unfolding realize_lifo
  realize_lifo-open_qty fill lots =
      let m = match_lots div multiplier fill fill.qty none lots in
      let sum = match_lots-open_qty fill fill.qty none lots in
      open_rest-open_qty fill m ∙ sum ∙ +ℤ_comm fill.qty (open_qty lots)
