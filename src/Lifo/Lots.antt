-- ===== src/Lifo/Lots.antt =====
-- `realize_lifo` of ib_trader/engine/lifo_pnl.py and the walk over the fills of one contract. The
-- quotient of two Decimals is rounded by their context; `div` stands for it, whatever it rounds to.
-- The list of lots is turned round: its head is the newest lot, `lots[-1]`.
use ib_trader.Prelude.{
  ℕ, suc, String, Bool, not, Option, none, some, List, [], ◌∷◌, ◌&&◌, if◌then◌else◌,
}
use ib_trader.Prelude.Int.{ℤ, pos, negsuc, ◌+ℤ◌, ◌-ℤ◌, ◌*ℤ◌, eqb_ℤ, neg_ℤ, abs_ℤ, min_ℤ}

pub record Lot : Type 0 where
  pub qty : ℤ
  pub cost : ℤ

-- `_sign`
abbrev pub sign : ℤ → ℤ
sign (pos ℕ.zero) = pos 0
sign (pos (suc _)) = pos 1
sign (negsuc _) = negsuc 0

-- One fill, as the tuples that `_compute_one` builds.
pub record FillOf : Type 0 where
  pub exec_id : String
  pub qty : ℤ
  pub price : ℤ
  pub commission : ℤ

-- `_sign(lots[-1].qty) == -_sign(remaining)`, with `remaining != 0`
abbrev pub is_closing : Lot → ℤ → Bool
is_closing top remaining =
    not (eqb_ℤ remaining (pos 0)) && eqb_ℤ (sign top.qty) (neg_ℤ (sign remaining))

-- `min(abs(remaining), abs(top.qty))`, with the sign of the lot
abbrev pub matched : Lot → ℤ → ℤ
matched top remaining = min_ℤ (pos (abs_ℤ remaining)) (pos (abs_ℤ top.qty))

abbrev pub add_realized : Option ℤ → ℤ → Option ℤ
add_realized none pnl = some pnl
add_realized (some r) pnl = some (r +ℤ pnl)

-- What the loop works on.
pub record Match : Type 0 where
  pub lots : List Lot
  pub remaining : ℤ
  pub realized : Option ℤ

module _ (div : ℤ → ℤ → ℤ) (multiplier : ℤ) where
  -- `_open_cost`
  unfoldable pub open_cost : ℤ → ℤ → ℤ → ℤ → ℤ
  open_cost price comm qty direction =
      price +ℤ div (direction *ℤ comm) (pos (abs_ℤ qty) *ℤ multiplier)

  unfoldable pub lot_pnl : FillOf → Lot → ℤ → ℤ
  lot_pnl fill top size =
      (fill.price -ℤ top.cost) *ℤ size *ℤ multiplier *ℤ sign top.qty
      -ℤ div (fill.commission *ℤ size) (pos (abs_ℤ fill.qty))

  -- The `while` loop. A lot that is not used up has met all that remained, so the loop's test fails
  -- after it (`Quantity.partial_match_ends`).
  unfoldable pub match_lots : FillOf → ℤ → Option ℤ → List Lot → Match
  match_lots fill remaining realized [] = record {
    lots = [];
    remaining = remaining;
    realized = realized;
  }
  match_lots fill remaining realized (top ∷ lots) =
      let size = matched top remaining in
      let moved = sign top.qty *ℤ size in
      let kept = record top { qty = top.qty -ℤ moved } in
      let pnl = add_realized realized (lot_pnl fill top size) in
      let rest = match_lots fill (remaining +ℤ moved) pnl lots in
      if is_closing top remaining
      then (if eqb_ℤ kept.qty (pos 0)
          then rest
          else record { lots = kept ∷ lots; remaining = remaining +ℤ moved; realized = pnl })
      else record { lots = top ∷ lots; remaining = remaining; realized = realized }

  -- `if remaining != 0`: what is left over opens a lot.
  unfoldable pub open_rest : FillOf → Match → List Lot
  open_rest fill m =
      if eqb_ℤ m.remaining (pos 0)
      then m.lots
      else record {
        qty = m.remaining;
        cost =
            open_cost fill.price
              (div (fill.commission *ℤ pos (abs_ℤ m.remaining)) (pos (abs_ℤ fill.qty))) m.remaining
              (sign m.remaining);
      }
        ∷ m.lots

  unfoldable pub realize_lifo : FillOf → List Lot → List Lot × Option ℤ
  unfolding match_lots open_rest
  realize_lifo fill lots =
      let m = match_lots fill fill.qty none lots in (open_rest fill m, m.realized)

  -- The last loop of `_compute_one`: the lots and the results by execution, oldest first.
  unfoldable pub walk : List FillOf → List Lot → List Lot × List (String × ℤ)
  walk [] lots = (lots, [])
  walk (fill ∷ fills) lots =
      let (kept, realized) = realize_lifo fill lots in
      let (final, results) = walk fills kept in
      (final, elim realized [ none ↦ results | some pnl ↦ (fill.exec_id, pnl) ∷ results ])

-- `LifoResult.open_qty`
abbrev pub open_qty : List Lot → ℤ
open_qty [] = pos 0
open_qty (lot ∷ lots) = lot.qty +ℤ open_qty lots
