-- ===== src/Lifo/RoundTrip.antt =====
-- The results of all the fills of one contract, ib_trader/engine/lifo_pnl.py: the module's doc says
-- that the totals of a round trip do not depend on the method.
use ib_trader.Prelude.{String, Option, none, some, List, [], ◌∷◌, ◌≡◌, refl, ◌∙◌, sym, ap, inl, All}
use ib_trader.Prelude.Int.{ℤ, pos, ◌+ℤ◌, +ℤ_assoc, zero-+ℤ, +ℤ-zero}
use ib_trader.Lifo.Lots.{FillOf, Lot, realize_lifo, walk}
use ib_trader.Lifo.Sides.{sum_qty, walk_flat}
use ib_trader.Lifo.Value.{or_zero, open_value, gain, realize_lifo_value}

-- The values of `realized_by_exec`.
abbrev pub sum_results : List (String × ℤ) → ℤ
sum_results [] = pos 0
sum_results ((_, pnl) ∷ results) = pnl +ℤ sum_results results

sum_results-add :
    (exec_id : String) (o : Option ℤ) (results : List (String × ℤ))
    → sum_results (elim o [ none ↦ results | some pnl ↦ (exec_id, pnl) ∷ results ])
      ≡ or_zero o +ℤ sum_results results
sum_results-add exec_id none results = sym (zero-+ℤ _)
sum_results-add exec_id (some pnl) results = refl

chain : (a b c d e f : ℤ) → b +ℤ c ≡ d +ℤ e → a +ℤ d ≡ f → a +ℤ b +ℤ c ≡ f +ℤ e
chain a b c d e f h k =
    +ℤ_assoc a b c ∙ ap (λ (t : ℤ). a +ℤ t) h ∙ sym (+ℤ_assoc a d e) ∙ ap (λ (t : ℤ). t +ℤ e) k

module _ (div : ℤ → ℤ → ℤ) (multiplier : ℤ) where
  abbrev pub sum_gains : ℤ → List FillOf → ℤ
  sum_gains mark [] = pos 0
  sum_gains mark (fill ∷ fills) =
      gain div multiplier mark fill.price fill.qty +ℤ sum_gains mark fills

  module _ (no_cost : (n : ℤ) → div (pos 0) n ≡ pos 0) where
    -- The same for any fills: the results and the worth of the lots at the end are the worth of the lots at the start and
    -- what each fill's quantity earns at the mark.
    pub walk_value :
        (mark : ℤ) (fills : List FillOf) (lots : List Lot)
        → All (λ (fill : FillOf). fill.commission ≡ pos 0) fills
        → let (final, results) = walk div multiplier fills lots in
          sum_results results +ℤ open_value div multiplier mark final
          ≡ open_value div multiplier mark lots +ℤ sum_gains mark fills
    unfolding walk
    walk_value mark [] lots _ = zero-+ℤ _ ∙ sym (+ℤ-zero _)
    walk_value mark (fill ∷ fills) lots (free, all_free) =
        let (kept, realized) = realize_lifo div multiplier fill lots in
        let (final, results) = walk div multiplier fills kept in
        let worth = open_value div multiplier mark in
        let earned = gain div multiplier mark fill.price fill.qty in
        ap (λ (t : ℤ). t +ℤ worth final) (sum_results-add fill.exec_id realized results)
        ∙ chain (or_zero realized) (sum_results results) (worth final) (worth kept)
            (sum_gains mark fills) (worth lots +ℤ earned) (walk_value mark fills kept all_free)
            (realize_lifo_value div multiplier no_cost mark fill lots free)
        ∙ +ℤ_assoc (worth lots) earned (sum_gains mark fills)

    -- If a commission of nothing costs nothing, then the results of a round trip without commissions,
    -- from no lots with quantities that cancel out, sum to what the fills' quantities earn at any
    -- one price.
    pub round_trip_total :
        (mark : ℤ) (fills : List FillOf)
        → All (λ (fill : FillOf). fill.commission ≡ pos 0) fills
        → sum_qty fills ≡ pos 0
        → sum_results (walk div multiplier fills []).1 ≡ sum_gains mark fills
    unfolding open_value
    round_trip_total mark fills free flat =
        let (final, results) = walk div multiplier fills [] in
        let used_up = walk_flat div multiplier fills [] (inl tt) (zero-+ℤ (sum_qty fills) ∙ flat) in
        sym (+ℤ-zero (sum_results results))
        ∙ ap (λ (lots : List Lot). sum_results results +ℤ open_value div multiplier mark lots)
            (sym used_up)
        ∙ walk_value mark fills [] free
        ∙ zero-+ℤ (sum_gains mark fills)
