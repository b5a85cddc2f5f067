-- ===== src/Lifo/Position.antt =====
-- The lots that `_compute_one` of ib_trader/engine/lifo_pnl.py returns are the position held now.
use ib_trader.Prelude.{
  true, false, Option, List, [], ◌∷◌, ◌≡◌, ◌∙◌, inl, inr, Bool-cases, Option-cases,
}
use ib_trader.Prelude.Int.{ℤ, pos, ◌+ℤ◌, ◌-ℤ◌, eqb_ℤ, leb_ℤ, int_laws}
use ib_trader.Prelude.Dict.{Dict}
use ib_trader.Lifo.Lots.{FillOf, Lot, open_qty, walk}
use ib_trader.Lifo.Quantity.{nonzero-sign, eqb_parts}
use ib_trader.Lifo.Sides.{sum_qty, IsOneSided, walk-IsOneSided, walk-open_qty, flat_empty}
use ib_trader.Lifo.Seed.{
  Execution, Held, or_zero_of, first_multiplier, sort_rows, fills_of, ib_realized_of, LifoResult,
  lifo, avg, Solved, solved, unsolved, is_implausible, walk_result, with_seed, compute_fills,
  compute_one,
}

-- What a result says of the position.
abbrev pub Holds : ℤ → LifoResult → Type 0
Holds quantity (avg _) = Unit
Holds quantity (lifo lots _) =
    (open_qty lots ≡ quantity) × IsOneSided lots × (quantity ≡ pos 0 → lots ≡ [])

back : (a b : ℤ) → a -ℤ b +ℤ pos 0 +ℤ b ≡ a
back a b = omega int_laws

nothing_before : (a b : ℤ) → eqb_ℤ (a -ℤ b) (pos 0) ≡ true → pos 0 +ℤ b ≡ a
nothing_before a b h = omega (int_laws, eqb_parts (a -ℤ b) (pos 0) h)

seed-IsOneSided : (lot : Lot) → eqb_ℤ lot.qty (pos 0) ≡ false → IsOneSided (lot ∷ [])
seed-IsOneSided lot h = elim (nonzero-sign lot.qty h) [
  | inl up ↦ inl (up, tt)
  | inr down ↦ inr (down, tt)
]

module _ (div : ℤ → ℤ → ℤ) (one half : ℤ) where
  walk_result-Holds :
      (mult quantity : ℤ) (fills : List FillOf) (lots : List Lot)
      → IsOneSided lots
      → open_qty lots +ℤ sum_qty fills ≡ quantity
      → Holds quantity (walk_result div one half mult fills lots)
  walk_result-Holds mult quantity fills lots side sum =
      let kept = walk-IsOneSided div mult fills lots side in
      let total = walk-open_qty div mult fills lots ∙ sum in
      (total, kept, λ flat. flat_empty (walk div mult fills lots).0 kept (total ∙ flat))

  with_seed-Holds :
      (mult quantity : ℤ) (fills : List FillOf) (s : Solved)
      → eqb_ℤ (quantity -ℤ sum_qty fills) (pos 0) ≡ false
      → Holds quantity (with_seed div one half mult fills (quantity -ℤ sum_qty fills) s)
  with_seed-Holds mult quantity fills (unsolved reason) h = tt
  with_seed-Holds mult quantity fills (solved cost) h =
      let lot : Lot = record { qty = quantity -ℤ sum_qty fills; cost = cost } in
      elim (Bool-cases (is_implausible div one half cost fills)) [
        | inl off ↦ rw off tt
        | inr ok ↦ rw ok (
            walk_result-Holds mult quantity fills (lot ∷ []) (seed-IsOneSided lot h)
              (back quantity (sum_qty fills)))
      ]

  compute_fills-Holds :
      (mult : ℤ) (fills : List FillOf) (held : Held) (ib : Dict (Option ℤ))
      → Holds (or_zero_of held.quantity) (compute_fills div one half mult fills held ib)
  unfolding compute_fills
  compute_fills-Holds mult fills held ib =
      let quantity = or_zero_of held.quantity in
      elim (Bool-cases (eqb_ℤ (quantity -ℤ sum_qty fills) (pos 0))) [
        | inl none_before ↦ rw none_before (
            walk_result-Holds mult quantity fills [] (inl tt)
              (nothing_before quantity (sum_qty fills) none_before))
        | inr seeded ↦ rw seeded (with_seed-Holds mult quantity fills _ seeded)
      ]

  -- Whatever the executions are, and however their quotients are rounded: if a contract's result is
  -- not the fallback, its lots are all long or all short and add up to the quantity that IB holds
  -- now, and there are none if it holds nothing.
  pub compute_one-Holds :
      (rows : List Execution) (held : Held)
      → Holds (or_zero_of held.quantity) (compute_one div one half rows held)
  unfolding compute_one
  compute_one-Holds rows held = elim (Option-cases (first_multiplier rows held.multiplier)) [
    | inl missing ↦ rw (missing, Holds) tt
    | inr (mult, found) ↦ elim (Bool-cases (leb_ℤ mult (pos 0))) [
      | inl bad ↦ rw (found, bad, Holds) tt
      | inr good ↦ elim (Option-cases (fills_of (sort_rows rows))) [
        | inl incomplete ↦ rw (found, good, incomplete, Holds) tt
        | inr (fills, complete) ↦
            rw (found, good, complete, Holds)
              (compute_fills-Holds mult fills held (ib_realized_of (sort_rows rows) []))
      ]
    ]
  ]
