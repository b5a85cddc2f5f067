-- ===== src/Lifo/Sides.antt =====
-- The lots of one contract are all long or all short, ib_trader/engine/lifo_pnl.py.
use ib_trader.Prelude.{
  true, Option, none, List, [], ◌∷◌, ◌≡◌, refl, ◌∙◌, sym, ap, subst, arith, Bool-cases, All, inl,
  inr, ◌⊎◌,
}
use ib_trader.Prelude.Int.{
  ℤ, pos, negsuc, pos_part, neg_part, ◌+ℤ◌, ◌-ℤ◌, ◌<ℤ◌, ◌≤ℤ◌, ◌*ℤ◌, abs_ℤ, eqb_ℤ, int_laws,
  +ℤ_assoc, +ℤ-zero,
}
use ib_trader.Lifo.Lots.{
  Lot, FillOf, Match, open_cost, sign, is_closing, matched, add_realized, lot_pnl, match_lots,
  open_rest, realize_lifo, open_qty, walk,
}
use ib_trader.Lifo.Quantity.{
  moved, nonzero-sign, kept-sign, same_side, partial_match_ends, realize_lifo-open_qty,
}

abbrev pub IsSide : ℤ → List Lot → Type 0
IsSide s lots = All (λ (lot : Lot). sign lot.qty ≡ s) lots

abbrev pub IsOneSided : List Lot → Type 0
IsOneSided lots = IsSide (pos 1) lots ⊎ IsSide (negsuc 0) lots

of_side : (s : ℤ) (lots : List Lot) → (s ≡ pos 1) ⊎ (s ≡ negsuc 0) → IsSide s lots → IsOneSided lots
of_side s lots (inl e) side = inl (subst (λ t. IsSide t lots) e side)
of_side s lots (inr e) side = inr (subst (λ t. IsSide t lots) e side)

abbrev Rest : ℤ → Match → Type 0
Rest s m =
    IsSide s m.lots
    × ((eqb_ℤ m.remaining (pos 0) ≡ true) ⊎ ((m.lots ≡ []) ⊎ (sign m.remaining ≡ s)))

zero_eqb : (a : ℤ) → a ≡ pos 0 → eqb_ℤ a (pos 0) ≡ true
zero_eqb a h = rw h refl

-- `sum((f[1] for f in fills), _ZERO)`
abbrev pub sum_qty : List FillOf → ℤ
sum_qty [] = pos 0
sum_qty (fill ∷ fills) = fill.qty +ℤ sum_qty fills

up_of_sign : (a : ℤ) → sign a ≡ pos 1 → pos 0 <ℤ a
up_of_sign a h = ground arith

down_of_sign : (a : ℤ) → sign a ≡ negsuc 0 → a <ℤ pos 0
down_of_sign a h = ground arith

long_qty : (lots : List Lot) → IsSide (pos 1) lots → pos 0 ≤ℤ open_qty lots
long_qty [] _ = omega arith
long_qty (lot ∷ lots) (h, side) = omega (int_laws, up_of_sign lot.qty h, long_qty lots side)

short_qty : (lots : List Lot) → IsSide (negsuc 0) lots → open_qty lots ≤ℤ pos 0
short_qty [] _ = omega arith
short_qty (lot ∷ lots) (h, side) = omega (int_laws, down_of_sign lot.qty h, short_qty lots side)

zero_parts : (a : ℤ) → a ≡ pos 0 → pos_part a ≡ neg_part a
zero_parts a h = rw h refl

pub flat_empty : (lots : List Lot) → IsOneSided lots → open_qty lots ≡ pos 0 → lots ≡ []
flat_empty [] _ _ = refl
flat_empty (lot ∷ lots) (inl (h, side)) e = absurd (
    omega
      (int_laws, up_of_sign lot.qty h, long_qty lots side, zero_parts (lot.qty +ℤ open_qty lots) e))
flat_empty (lot ∷ lots) (inr (h, side)) e = absurd (
    omega (
      int_laws,
      down_of_sign lot.qty h,
      short_qty lots side,
      zero_parts (lot.qty +ℤ open_qty lots) e,
    ))

module _ (div : ℤ → ℤ → ℤ) (multiplier : ℤ) where
  match_lots-Rest :
      (s : ℤ)
      → (s ≡ pos 1) ⊎ (s ≡ negsuc 0)
      → (fill : FillOf) (remaining : ℤ) (realized : Option ℤ) (lots : List Lot) → IsSide s lots
      → Rest s (match_lots div multiplier fill remaining realized lots)
  unfolding match_lots
  match_lots-Rest s hs fill remaining realized [] _ = (tt, inr (inl refl))
  match_lots-Rest s hs fill remaining realized (top ∷ lots) (same, side) =
      let size = matched top remaining in
      let ih =
        match_lots-Rest s hs fill (remaining +ℤ moved top remaining)
          (add_realized realized (lot_pnl div multiplier fill top size)) lots side in
      elim (Bool-cases (is_closing top remaining)) [
        | inr h ↦ rw h (
          (same, side),
          elim (Bool-cases (eqb_ℤ remaining (pos 0))) [
            | inl k ↦ inl k
            | inr k ↦ inr (inr (same_side top.qty remaining s hs same h k))
          ],
        )
        | inl h ↦ elim (Bool-cases (eqb_ℤ (top.qty -ℤ moved top remaining) (pos 0))) [
          | inl k ↦ rw (h, k) ih
          | inr k ↦
              rw (h, k)
                (
                  (kept-sign top.qty remaining h k ∙ same, side),
                  inl (zero_eqb _ (partial_match_ends top remaining h k)),
                )
        ]
      ]

  abbrev opened : FillOf → Match → Lot
  opened fill m = record {
    qty = m.remaining;
    cost =
        open_cost div multiplier fill.price
          (div (fill.commission *ℤ pos (abs_ℤ m.remaining)) (pos (abs_ℤ fill.qty))) m.remaining
          (sign m.remaining);
  }

  open_rest-IsOneSided :
      (s : ℤ)
      → (s ≡ pos 1) ⊎ (s ≡ negsuc 0)
      → (fill : FillOf) (m : Match) → Rest s m
      → IsOneSided (open_rest div multiplier fill m)
  unfolding open_rest
  open_rest-IsOneSided s hs fill m (side, rest) = elim (Bool-cases (eqb_ℤ m.remaining (pos 0))) [
    | inl h ↦ rw h (of_side s m.lots hs side)
    | inr h ↦ rw h (elim rest [
      | inl k ↦ absurd (cc (k, h))
      | inr (inl none_left) ↦
          rw none_left (elim (nonzero-sign m.remaining h) [
            | inl up ↦ inl (up, tt)
            | inr down ↦ inr (down, tt)
          ])
      | inr (inr same) ↦ of_side s (opened fill m ∷ m.lots) hs (same, side)
    ])
  ]

  -- A fill leaves the lots all long or all short.
  pub realize_lifo-IsOneSided :
      (fill : FillOf) (lots : List Lot)
      → IsOneSided lots
      → IsOneSided (realize_lifo div multiplier fill lots).0
  unfolding realize_lifo
  realize_lifo-IsOneSided fill lots (inl side) =
      open_rest-IsOneSided (pos 1) (inl refl) fill
        (match_lots div multiplier fill fill.qty none lots)
        (match_lots-Rest (pos 1) (inl refl) fill fill.qty none lots side)
  realize_lifo-IsOneSided fill lots (inr side) =
      open_rest-IsOneSided (negsuc 0) (inr refl) fill
        (match_lots div multiplier fill fill.qty none lots)
        (match_lots-Rest (negsuc 0) (inr refl) fill fill.qty none lots side)

  -- Any fills leave lots that are all long or all short so.
  pub walk-IsOneSided :
      (fills : List FillOf) (lots : List Lot)
      → IsOneSided lots
      → IsOneSided (walk div multiplier fills lots).0
  unfolding walk
  walk-IsOneSided [] lots h = h
  walk-IsOneSided (fill ∷ fills) lots h =
      walk-IsOneSided fills (realize_lifo div multiplier fill lots).0
        (realize_lifo-IsOneSided fill lots h)

  -- The lots left after the fills add up to the lots before them and the fills' quantities.
  pub walk-open_qty :
      (fills : List FillOf) (lots : List Lot)
      → open_qty (walk div multiplier fills lots).0 ≡ open_qty lots +ℤ sum_qty fills
  unfolding walk
  walk-open_qty [] lots = sym (+ℤ-zero (open_qty lots))
  walk-open_qty (fill ∷ fills) lots =
      walk-open_qty fills (realize_lifo div multiplier fill lots).0
      ∙ ap (λ (q : ℤ). q +ℤ sum_qty fills) (realize_lifo-open_qty div multiplier fill lots)
      ∙ +ℤ_assoc (open_qty lots) fill.qty (sum_qty fills)

  -- Lots that are all long or all short and whose quantities cancel the fills' are used up.
  pub walk_flat :
      (fills : List FillOf) (lots : List Lot)
      → IsOneSided lots
      → open_qty lots +ℤ sum_qty fills ≡ pos 0
      → (walk div multiplier fills lots).0 ≡ []
  walk_flat fills lots h e =
      flat_empty _ (walk-IsOneSided fills lots h) (walk-open_qty fills lots ∙ e)
