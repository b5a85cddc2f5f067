-- ===== src/Lifo/Seed.antt =====
-- `_signed_qty`, `_simulate_avg`, `_solve_seed_cost` and `_compute_one` of
-- ib_trader/engine/lifo_pnl.py: the lot held before the oldest execution, and the whole result of a
-- contract. `one` and `half` are the Decimals 1 and 0.5 in the unit of the prices, in which a quotient of
-- two prices is expressed too.
use Prim.Native.String.{compare}
use text.Mathlib.Text.{is_lt}
use ib_trader.Prelude.{
  ℕ, String, Bool, false, not, ◌&&◌, ◌||◌, Option, none, some, List, [], ◌∷◌, ltb, ◌==◌,
  if◌then◌else◌,
}
use ib_trader.Prelude.Int.{ℤ, pos, ◌+ℤ◌, ◌-ℤ◌, ◌*ℤ◌, eqb_ℤ, ltb_ℤ, leb_ℤ, neg_ℤ, abs_ℤ, min_ℤ}
use ib_trader.Prelude.Dict.{Dict, lookup, insert}
use ib_trader.Lifo.Lots.{FillOf, Lot, sign, open_cost, walk}
use ib_trader.Lifo.Sides.{sum_qty}

-- The `side` of an execution: one of the two lists of texts, or another.
pub data Side : Type 0 where
  bought : Side
  sold : Side
  unknown : Side

-- An execution, its Decimals read.
pub record Execution : Type 0 where
  pub exec_id : String
  pub exec_time : ℕ
  pub side : Side
  pub shares : Option ℤ
  pub price : Option ℤ
  pub commission : Option ℤ
  pub realized_pnl : Option ℤ
  pub multiplier : Option ℤ

pub record Held : Type 0 where
  pub quantity : Option ℤ
  pub avg_cost : Option ℤ
  pub multiplier : Option ℤ

abbrev pub or_zero_of : Option ℤ → ℤ
or_zero_of none = pos 0
or_zero_of (some v) = v

abbrev pub signed_qty : Execution → Option ℤ
signed_qty ex = elim ex.shares [
  | none ↦ none
  | some shares ↦ if leb_ℤ shares (pos 0) then none else elim ex.side [
    | Side.bought ↦ some shares
    | Side.sold ↦ some (neg_ℤ shares)
    | Side.unknown ↦ none
  ]
]

-- `sorted` by time and id, which is stable.
abbrev pub is_before : Execution → Execution → Bool
is_before a b =
    ltb a.exec_time b.exec_time
    || (a.exec_time == b.exec_time && is_lt (compare a.exec_id b.exec_id))

unfoldable pub insert_row : Execution → List Execution → List Execution
insert_row a [] = a ∷ []
insert_row a (b ∷ rows) =
    let rest = insert_row a rows in if is_before b a then b ∷ rest else a ∷ b ∷ rows

unfoldable pub sort_rows : List Execution → List Execution
sort_rows [] = []
sort_rows (a ∷ rows) = insert_row a (sort_rows rows)

-- The fills, or none if one is incomplete.
unfoldable pub fills_of : List Execution → Option (List FillOf)
fills_of [] = some []
fills_of (ex ∷ rows) = elim (signed_qty ex) [
  | none ↦ none
  | some qty ↦ elim ex.price [
    | none ↦ none
    | some price ↦ elim (fills_of rows) [
      | none ↦ none
      | some fills ↦ some (
          record {
            exec_id = ex.exec_id;
            qty = qty;
            price = price;
            commission = or_zero_of ex.commission;
          }
          ∷ fills)
    ]
  ]
]

-- `ib_realized`, in which a later row of an id replaces an earlier one.
unfoldable pub ib_realized_of : List Execution → Dict (Option ℤ) → Dict (Option ℤ)
ib_realized_of [] d = d
ib_realized_of (ex ∷ rows) d = ib_realized_of rows (insert ex.exec_id ex.realized_pnl d)

-- Truth of a Decimal that may be missing.
abbrev pub truthy : Option ℤ → Option ℤ
truthy none = none
truthy (some m) = if eqb_ℤ m (pos 0) then none else some m

unfoldable pub first_multiplier : List Execution → Option ℤ → Option ℤ
first_multiplier [] held = held
first_multiplier (ex ∷ rows) held = elim (truthy ex.multiplier) [
  | none ↦ first_multiplier rows held
  | some m ↦ some m
]

pub data Fallback : Type 0 where
  unknown_multiplier : Fallback
  incomplete_fill : Fallback
  no_ib_avg_cost : Fallback
  ib_realized_missing : Fallback
  degenerate_seed : Fallback
  seed_cost_implausible : Fallback

pub data LifoResult : Type 0 where
  lifo : List Lot → List (String × ℤ) → LifoResult
  avg : Fallback → LifoResult

-- What `_simulate_avg` walks with.
pub record Average : Type 0 where
  pub qty : ℤ
  pub cost : ℤ
  pub realized : ℤ
  pub seed_gone : Bool

pub data Solved : Type 0 where
  solved : ℤ → Solved
  unsolved : Fallback → Solved

module _ (div : ℤ → ℤ → ℤ) (multiplier : ℤ) where
  -- The part of the loop's body for a fill that opens or adds.
  abbrev pub average_add : FillOf → Average → Average
  average_add fill a =
      let cost = open_cost div multiplier fill.price fill.commission fill.qty (sign fill.qty) in
      record a {
        qty = a.qty +ℤ fill.qty;
        cost =
            if eqb_ℤ a.qty (pos 0)
            then cost
            else div (pos (abs_ℤ a.qty) *ℤ a.cost +ℤ pos (abs_ℤ fill.qty) *ℤ cost)
                (pos (abs_ℤ (a.qty +ℤ fill.qty)));
      }

  -- The part for one that closes.
  abbrev pub average_close : FillOf → Average → Average
  average_close fill a =
      let closed = min_ℤ (pos (abs_ℤ fill.qty)) (pos (abs_ℤ a.qty)) in
      let new_qty = a.qty +ℤ fill.qty in
      let crossed = not (eqb_ℤ (sign new_qty) (sign a.qty)) in
      record {
        qty = new_qty;
        cost =
            if crossed && not (eqb_ℤ new_qty (pos 0))
            then open_cost div multiplier fill.price
                (div (fill.commission *ℤ pos (abs_ℤ new_qty)) (pos (abs_ℤ fill.qty))) new_qty
                (sign new_qty)
            else a.cost;
        realized =
            if a.seed_gone
            then a.realized
            else a.realized
              +ℤ ((fill.price -ℤ a.cost) *ℤ closed *ℤ multiplier *ℤ sign a.qty
                  -ℤ div (fill.commission *ℤ closed) (pos (abs_ℤ fill.qty)));
        seed_gone = a.seed_gone || crossed;
      }

  unfoldable pub simulate_avg : List FillOf → Average → Average
  simulate_avg [] a = a
  simulate_avg (fill ∷ fills) a = simulate_avg fills (
      if eqb_ℤ a.qty (pos 0) || eqb_ℤ (sign fill.qty) (sign a.qty)
      then average_add fill a
      else average_close fill a)

  abbrev pub seed_average : ℤ → ℤ → Average
  seed_average seed_qty cost = record {
    qty = seed_qty;
    cost = cost;
    realized = pos 0;
    seed_gone = false;
  }

  -- `avg if qty != 0 else None`
  abbrev pub final_avg : Average → Option ℤ
  final_avg a = if eqb_ℤ a.qty (pos 0) then none else some a.cost

  -- The sum of IB's results up to the fill that closes the seed; `none` is a missing one.
  unfoldable pub closing_target : Dict (Option ℤ) → List FillOf → ℤ → Option ℤ
  closing_target ib [] qty = some (pos 0)
  closing_target ib (fill ∷ fills) qty =
      let next = qty +ℤ fill.qty in
      let rest = closing_target ib fills next in
      if not (eqb_ℤ qty (pos 0)) && not (eqb_ℤ (sign fill.qty) (sign qty))
      then elim (lookup fill.exec_id ib) [
        | none ↦ none
        | some none ↦ none
        | some (some pnl) ↦
            if eqb_ℤ (sign next) (sign qty)
            then elim rest [ none ↦ none | some target ↦ some (pnl +ℤ target) ]
            else some pnl
      ]
      else rest

  -- IB's average cost is affine in the seed's: two walks give the line.
  abbrev pub solve_open : ℤ → Option ℤ → Option ℤ → Option ℤ → Solved
  solve_open one (some ib_avg) (some avg0) (some avg1) =
      if eqb_ℤ avg1 avg0
      then unsolved no_ib_avg_cost
      else solved (div ((ib_avg -ℤ avg0) *ℤ one) (avg1 -ℤ avg0))
  solve_open _ _ _ _ = unsolved no_ib_avg_cost

  abbrev pub solve_closed : ℤ → Option ℤ → ℤ → ℤ → Solved
  solve_closed one none r0 r1 = unsolved ib_realized_missing
  solve_closed one (some target) r0 r1 =
      if eqb_ℤ r1 r0
      then unsolved degenerate_seed
      else solved (div ((target -ℤ r0) *ℤ one) (r1 -ℤ r0))

  unfoldable pub solve_seed_cost : ℤ → ℤ → List FillOf → Option ℤ → Dict (Option ℤ) → Solved
  solve_seed_cost one seed_qty fills ib_avg_now ib_realized =
      let zero_cost = simulate_avg fills (seed_average seed_qty (pos 0)) in
      let one_cost = simulate_avg fills (seed_average seed_qty one) in
      if zero_cost.seed_gone
      then solve_closed one (closing_target ib_realized fills seed_qty) zero_cost.realized
          one_cost.realized
      else solve_open one ib_avg_now (final_avg zero_cost) (final_avg one_cost)

-- The test against the first price; `by_sym` holds no empty list.
abbrev pub is_implausible : (ℤ → ℤ → ℤ) → ℤ → ℤ → ℤ → List FillOf → Bool
is_implausible div one half seed_cost [] = false
is_implausible div one half seed_cost (fill ∷ _) =
    not (eqb_ℤ fill.price (pos 0))
    && ltb_ℤ half (div (pos (abs_ℤ (seed_cost -ℤ fill.price)) *ℤ one) fill.price)

module _ (div : ℤ → ℤ → ℤ) (one half : ℤ) where
  abbrev pub walk_result : ℤ → List FillOf → List Lot → LifoResult
  walk_result mult fills lots =
      let (final, results) = walk div mult fills lots in lifo final results

  abbrev pub with_seed : ℤ → List FillOf → ℤ → Solved → LifoResult
  with_seed mult fills seed_qty (unsolved reason) = avg reason
  with_seed mult fills seed_qty (solved seed_cost) =
      if is_implausible div one half seed_cost fills
      then avg seed_cost_implausible
      else walk_result mult fills (record { qty = seed_qty; cost = seed_cost } ∷ [])

  -- `_compute_one` once the multiplier and the fills are known.
  unfoldable pub compute_fills : ℤ → List FillOf → Held → Dict (Option ℤ) → LifoResult
  compute_fills mult fills held ib_realized =
      let seed_qty = or_zero_of held.quantity -ℤ sum_qty fills in
      if eqb_ℤ seed_qty (pos 0)
      then walk_result mult fills []
      else with_seed mult fills seed_qty
          (solve_seed_cost div mult one seed_qty fills held.avg_cost ib_realized)

  -- `_compute_one`
  unfoldable pub compute_one : List Execution → Held → LifoResult
  unfolding compute_fills
  compute_one rows held = elim (first_multiplier rows held.multiplier) [
    | none ↦ avg unknown_multiplier
    | some mult ↦
        if leb_ℤ mult (pos 0)
        then avg unknown_multiplier
        else (let sorted = sort_rows rows in
            elim (fills_of sorted) [
              | none ↦ avg incomplete_fill
              | some fills ↦ compute_fills mult fills held (ib_realized_of sorted [])
            ])
  ]
