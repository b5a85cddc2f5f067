-- ===== src/Bars/Totals.antt =====
-- What BarAggregator of ib_trader/bots/bar_aggregator.py keeps of the bars it is given.
use ib_trader.Prelude.{
  ℕ, ◌+◌, true, Option, none, some, List, [], ◌∷◌, ◌++◌, length, ◌==◌, if◌then◌else◌, ◌≡◌, refl,
  ◌∙◌, sym, ap, arith, All, Bool-cases, inl, inr, length-append,
}
use ib_trader.Prelude.Int.{ℤ, pos, ◌+ℤ◌, +ℤ_assoc, +ℤ_comm, zero-+ℤ, +ℤ-zero}
use ib_trader.Bars.{Bar, Aggregator, slot_start, is_seen, accept_bar, add_bar, add_bars}

abbrev pub sum_volume : List Bar → ℤ
sum_volume [] = pos 0
sum_volume (bar ∷ bars) = bar.volume +ℤ sum_volume bars

abbrev pub volume_of : Option Bar → ℤ
volume_of none = pos 0
volume_of (some bar) = bar.volume

-- The bars that are not dropped as seen before.
unfoldable pub accepted : Option ℕ → List Bar → List Bar
accepted last [] = []
accepted last (bar ∷ bars) =
    let rest = accepted last bars in
    let fresh = bar ∷ accepted (some bar.timestamp) bars in
    if is_seen last bar.timestamp then rest else fresh

sum_volume-append : (xs ys : List Bar) → sum_volume (xs ++ ys) ≡ sum_volume xs +ℤ sum_volume ys
sum_volume-append [] ys = sym (zero-+ℤ (sum_volume ys))
sum_volume-append (x ∷ xs) ys =
    ap (λ (t : ℤ). x.volume +ℤ t) (sum_volume-append xs ys)
    ∙ sym (+ℤ_assoc x.volume (sum_volume xs) (sum_volume ys))

-- One bar that is not dropped.
accept_bar_volume :
    (o : Option Bar) (bar : Bar) (a : Aggregator)
    → let (after, done) = accept_bar o bar a in
      (sum_volume done +ℤ volume_of after.current ≡ volume_of o +ℤ bar.volume)
      × (after.last_seen_ts ≡ some bar.timestamp)
      × (after.total_bar_count ≡ a.total_bar_count + length done)
accept_bar_volume none bar a = (refl, refl, omega arith)
accept_bar_volume (some current) bar a =
    elim (Bool-cases (current.timestamp == slot_start a.target_seconds bar.timestamp)) [
      | inl same ↦ rw same (zero-+ℤ (current.volume +ℤ bar.volume), refl, omega arith)
      | inr rolled ↦
          rw rolled (ap (λ (t : ℤ). t +ℤ bar.volume) (+ℤ-zero current.volume), refl, omega arith)
    ]

chain : (d e c v b f r : ℤ) → d +ℤ c ≡ v +ℤ b → e +ℤ r ≡ c +ℤ f → d +ℤ e +ℤ r ≡ v +ℤ (b +ℤ f)
chain d e c v b f r h k =
    +ℤ_assoc d e r
    ∙ ap (λ (t : ℤ). d +ℤ t) k
    ∙ sym (+ℤ_assoc d c f)
    ∙ ap (λ (t : ℤ). t +ℤ f) h
    ∙ +ℤ_assoc v b f

-- No volume is lost or counted twice: what the completed bars and the bar in progress hold is what
-- the bar in progress held before and the volume of the bars that were not seen before, whatever
-- their times; and the count of bars grows by the completed ones.
pub add_bars_volume :
    (bars : List Bar) (a : Aggregator)
    → let (after, done) = add_bars bars a in
      (sum_volume done +ℤ volume_of after.current
        ≡ volume_of a.current +ℤ sum_volume (accepted a.last_seen_ts bars))
      × (after.total_bar_count ≡ a.total_bar_count + length done)
unfolding add_bars add_bar accepted
add_bars_volume [] a = (+ℤ_comm (pos 0) (volume_of a.current), omega arith)
add_bars_volume (bar ∷ bars) a = elim (Bool-cases (is_seen a.last_seen_ts bar.timestamp)) [
  | inl seen ↦ rw seen (add_bars_volume bars a)
  | inr fresh ↦
      let (one, last, count) = accept_bar_volume a.current bar a in
      let (after, done) = accept_bar a.current bar a in
      let (final, later) = add_bars bars after in
      let (rest, total) = add_bars_volume bars after in
      rw fresh (
        ap (λ (t : ℤ). t +ℤ volume_of final.current) (sum_volume-append done later)
            ∙ chain (sum_volume done) (sum_volume later) (volume_of after.current)
                (volume_of a.current) bar.volume (sum_volume (accepted (some bar.timestamp) bars))
                (volume_of final.current) one
                (rest
                  ∙ ap (λ (l : Option ℕ). volume_of after.current +ℤ sum_volume (accepted l bars))
                      last),
        omega (arith, total, count, length-append done later),
      )
]

-- Feeding bars again that were seen before, as after a restart, changes nothing and completes none.
pub add_bars_seen :
    (bars : List Bar) (a : Aggregator)
    → All (λ (bar : Bar). is_seen a.last_seen_ts bar.timestamp ≡ true) bars
    → add_bars bars a ≡ (a, [])
unfolding add_bars add_bar
add_bars_seen [] a _ = refl
add_bars_seen (bar ∷ bars) a (seen, all) = rw seen (add_bars_seen bars a all)
