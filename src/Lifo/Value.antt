-- ===== src/Lifo/Value.antt =====
-- What the fills earn, ib_trader/engine/lifo_pnl.py: without commissions, a fill moves value between
-- the realized result and the open lots and makes none.
use ib_trader.Prelude.{
  true, Option, none, some, List, [], ◌∷◌, ◌≡◌, refl, ◌∙◌, sym, ap, Bool-cases, inl, inr,
}
use ib_trader.Prelude.Int.{
  ℤ, pos, ◌+ℤ◌, ◌-ℤ◌, ◌*ℤ◌, eqb_ℤ, int_laws, abs_ℤ, eq_of_parts, +ℤ_comm, zero-+ℤ, +ℤ-zero,
}
use ib_trader.Prelude.Ring.{*ℤ_comm, *ℤ_assoc, +ℤ-*ℤ, -ℤ-*ℤ, *ℤ-+ℤ, *ℤ--ℤ, *ℤ-zero, zero-*ℤ}
use ib_trader.Lifo.Lots.{
  Lot, FillOf, Match, sign, is_closing, matched, add_realized, lot_pnl, match_lots, open_rest,
  realize_lifo, open_cost,
}
use ib_trader.Lifo.Quantity.{moved, eqb_parts}

distribute :
    (p price c q r d m : ℤ)
    → (price -ℤ c) *ℤ d *ℤ m +ℤ (p -ℤ c) *ℤ (q -ℤ d) *ℤ m +ℤ (p -ℤ price) *ℤ (r +ℤ d) *ℤ m
      ≡ (p -ℤ c) *ℤ q *ℤ m +ℤ (p -ℤ price) *ℤ r *ℤ m
distribute p price c q r d m = simp (+ℤ-*ℤ, -ℤ-*ℤ, *ℤ-+ℤ, *ℤ--ℤ) (omega int_laws)

last_factor : (a b m s : ℤ) → a *ℤ b *ℤ m *ℤ s ≡ a *ℤ (s *ℤ b) *ℤ m
last_factor a b m s =
    ap (λ (t : ℤ). t *ℤ s) (*ℤ_assoc a b m)
    ∙ *ℤ_assoc a (b *ℤ m) s
    ∙ ap (λ (t : ℤ). a *ℤ t) (*ℤ_comm (b *ℤ m) s ∙ sym (*ℤ_assoc s b m))
    ∙ sym (*ℤ_assoc a (s *ℤ b) m)

-- The result of the fills so far; Python's `realized or _ZERO`.
abbrev pub or_zero : Option ℤ → ℤ
or_zero none = pos 0
or_zero (some r) = r

or_zero-add_realized : (o : Option ℤ) (r : ℤ) → or_zero (add_realized o r) ≡ or_zero o +ℤ r
or_zero-add_realized none r = sym (zero-+ℤ r)
or_zero-add_realized (some _) r = refl

gather : (r p x y v : ℤ) → r +ℤ p +ℤ (x +ℤ v +ℤ y) ≡ r +ℤ v +ℤ (p +ℤ x +ℤ y)
gather r p x y v = omega int_laws

settle : (r p x y z w v : ℤ) → p +ℤ x +ℤ y ≡ z +ℤ w → r +ℤ p +ℤ (x +ℤ v +ℤ y) ≡ r +ℤ (z +ℤ v +ℤ w)
settle r p x y z w v e = gather r p x y v ∙ ap (λ (t : ℤ). r +ℤ v +ℤ t) e ∙ omega int_laws

settle_closed :
    (r p x y z w v : ℤ) → p +ℤ x +ℤ y ≡ z +ℤ w → x ≡ pos 0 → r +ℤ p +ℤ (v +ℤ y) ≡ r +ℤ (z +ℤ v +ℤ w)
settle_closed r p x y z w v e none_left =
    ap (λ (t : ℤ). r +ℤ p +ℤ (t +ℤ y)) (sym (zero-+ℤ v))
    ∙ ap (λ (t : ℤ). r +ℤ p +ℤ (t +ℤ v +ℤ y)) (sym none_left)
    ∙ settle r p x y z w v e

equal_of_eqb : (a b : ℤ) → eqb_ℤ a b ≡ true → a ≡ b
equal_of_eqb a b h = eq_of_parts a b (eqb_parts a b h)

closed_gain : (a q m : ℤ) → eqb_ℤ q (pos 0) ≡ true → a *ℤ q *ℤ m ≡ pos 0
closed_gain a q m h =
    ap (λ (t : ℤ). a *ℤ t *ℤ m) (equal_of_eqb q (pos 0) h)
    ∙ ap (λ (t : ℤ). t *ℤ m) (*ℤ-zero a)
    ∙ zero-*ℤ m

module _ (div : ℤ → ℤ → ℤ) (multiplier : ℤ) where
  -- What the open lots would earn at a price.
  unfoldable pub open_value : ℤ → List Lot → ℤ
  open_value price [] = pos 0
  open_value price (lot ∷ lots) =
      (price -ℤ lot.cost) *ℤ lot.qty *ℤ multiplier +ℤ open_value price lots

  -- What a quantity bought at one price earns at another.
  abbrev pub gain : ℤ → ℤ → ℤ → ℤ
  gain mark price qty = (mark -ℤ price) *ℤ qty *ℤ multiplier

  module _ (no_cost : (n : ℤ) → div (pos 0) n ≡ pos 0) where
    lot_pnl_free :
        (fill : FillOf) (top : Lot) (size : ℤ)
        → fill.commission ≡ pos 0
        → lot_pnl div multiplier fill top size
          ≡ (fill.price -ℤ top.cost) *ℤ (sign top.qty *ℤ size) *ℤ multiplier
    unfolding lot_pnl
    lot_pnl_free fill top size free =
        let pnl = (fill.price -ℤ top.cost) *ℤ size *ℤ multiplier *ℤ sign top.qty in
        let share =
          ap (λ (c : ℤ). div (c *ℤ size) (pos (abs_ℤ fill.qty))) free
          ∙ ap (λ (c : ℤ). div c (pos (abs_ℤ fill.qty))) (zero-*ℤ size)
          ∙ no_cost _ in
        ap (λ (c : ℤ). pnl -ℤ c) share
        ∙ omega int_laws
        ∙ last_factor (fill.price -ℤ top.cost) size multiplier (sign top.qty)

    match_lots_value :
        (mark : ℤ) (fill : FillOf)
        → fill.commission ≡ pos 0
        → (remaining : ℤ) (realized : Option ℤ) (lots : List Lot)
        → let m = match_lots div multiplier fill remaining realized lots in
          or_zero m.realized +ℤ (open_value mark m.lots +ℤ gain mark fill.price m.remaining)
          ≡ or_zero realized +ℤ (open_value mark lots +ℤ gain mark fill.price remaining)
    unfolding match_lots open_value
    match_lots_value mark fill free remaining realized [] = refl
    match_lots_value mark fill free remaining realized (top ∷ lots) =
        let size = matched top remaining in
        let d = moved top remaining in
        let pnl = lot_pnl div multiplier fill top size in
        let earned =
          or_zero-add_realized realized pnl
          ∙ ap (λ (t : ℤ). or_zero realized +ℤ t) (lot_pnl_free fill top size free) in
        let spread = distribute mark fill.price top.cost top.qty remaining d multiplier in
        let ih =
          match_lots_value mark fill free (remaining +ℤ d) (add_realized realized pnl) lots in
        elim (Bool-cases (is_closing top remaining)) [
          | inr h ↦ rw h refl
          | inl h ↦ elim (Bool-cases (eqb_ℤ (top.qty -ℤ d) (pos 0))) [
            | inr k ↦
                rw (h, k)
                  (ap
                      (λ (t : ℤ).
                        t
                        +ℤ (gain mark top.cost (top.qty -ℤ d)
                            +ℤ open_value mark lots
                            +ℤ gain mark fill.price (remaining +ℤ d)))
                      earned
                    ∙ settle _ _ _ _ _ _ _ spread)
            | inl k ↦
                rw (h, k)
                  (ih
                    ∙ ap
                        (λ (t : ℤ).
                          t +ℤ (open_value mark lots +ℤ gain mark fill.price (remaining +ℤ d)))
                        earned
                    ∙ settle_closed _ _ _ _ _ _ _ spread
                        (closed_gain (mark -ℤ top.cost) (top.qty -ℤ d) multiplier k))
          ]
        ]

    opened_cost :
        (fill : FillOf) (qty : ℤ)
        → fill.commission ≡ pos 0
        → open_cost div multiplier fill.price
            (div (fill.commission *ℤ pos (abs_ℤ qty)) (pos (abs_ℤ fill.qty)))
            qty
            (sign qty)
          ≡ fill.price
    unfolding open_cost
    opened_cost fill qty free =
        let size = pos (abs_ℤ qty) in
        let total = pos (abs_ℤ fill.qty) in
        let share =
          ap (λ (c : ℤ). div (c *ℤ size) total) free
          ∙ ap (λ (c : ℤ). div c total) (zero-*ℤ size)
          ∙ no_cost total in
        ap (λ (c : ℤ). fill.price +ℤ div (sign qty *ℤ c) (size *ℤ multiplier)) share
        ∙ ap (λ (c : ℤ). fill.price +ℤ div c (size *ℤ multiplier)) (*ℤ-zero (sign qty))
        ∙ ap (λ (c : ℤ). fill.price +ℤ c) (no_cost (size *ℤ multiplier))
        ∙ +ℤ-zero fill.price

    open_rest_value :
        (mark : ℤ) (fill : FillOf) (m : Match)
        → fill.commission ≡ pos 0
        → open_value mark (open_rest div multiplier fill m)
          ≡ open_value mark m.lots +ℤ gain mark fill.price m.remaining
    unfolding open_rest open_value
    open_rest_value mark fill m free = elim (Bool-cases (eqb_ℤ m.remaining (pos 0))) [
      | inl h ↦ rw h (
          sym (+ℤ-zero _)
          ∙ ap (λ (t : ℤ). open_value mark m.lots +ℤ t)
              (sym (closed_gain (mark -ℤ fill.price) m.remaining multiplier h)))
      | inr h ↦ rw h (
          ap (λ (c : ℤ). gain mark c m.remaining +ℤ open_value mark m.lots)
            (opened_cost fill m.remaining free)
          ∙ +ℤ_comm _ _)
    ]

    -- If a commission of nothing costs nothing, then the result of a fill without a commission and
    -- the worth of the lots after it, at any price, are together the worth of the lots before and
    -- what the fill's own quantity earns.
    pub realize_lifo_value :
        (mark : ℤ) (fill : FillOf) (lots : List Lot)
        → fill.commission ≡ pos 0
        → let (kept, realized) = realize_lifo div multiplier fill lots in
          or_zero realized +ℤ open_value mark kept
          ≡ open_value mark lots +ℤ gain mark fill.price fill.qty
    unfolding realize_lifo
    realize_lifo_value mark fill lots free =
        let m = match_lots div multiplier fill fill.qty none lots in
        ap (λ (t : ℤ). or_zero m.realized +ℤ t) (open_rest_value mark fill m free)
        ∙ match_lots_value mark fill free fill.qty none lots
        ∙ zero-+ℤ _
