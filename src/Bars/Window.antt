-- ===== src/Bars/Window.antt =====
-- The window of BarAggregator in ib_trader/bots/bar_aggregator.py, also after a restart.
use ib_trader.Prelude.{
  ℕ, suc, ◌≤◌, Bool, Option, none, some, List, [], ◌∷◌, ◌++◌, length, ltb, ◌==◌, if◌then◌else◌, ◌≡◌,
  refl, ◌∙◌, sym, ap, arith, Bool-cases, inl, inr,
}
use ib_trader.Bars.{
  Bar, Aggregator, keep, slot_start, is_seen, accept_bar, add_bar, add_bars, newest_first,
  get_bar_window, or_default, restore,
}

keep-keep : (m n : ℕ) (xs : List Bar) → m ≤ n → keep m (keep n xs) ≡ keep m xs
unfolding keep
keep-keep m n [] le = refl
keep-keep ℕ.zero ℕ.zero (x ∷ xs) le = refl
keep-keep ℕ.zero (suc n) (x ∷ xs) le = refl
keep-keep (suc m) ℕ.zero (x ∷ xs) le = absurd (omega (arith, le))
keep-keep (suc m) (suc n) (x ∷ xs) le =
    ap (λ (t : List Bar). x ∷ t) (keep-keep m n xs (omega (arith, le)))

keep_after : (n : ℕ) (x : Bar) (xs : List Bar) → keep n (x ∷ keep n xs) ≡ keep n (x ∷ xs)
unfolding keep
keep_after ℕ.zero x xs = refl
keep_after (suc n) x xs = ap (λ (t : List Bar). x ∷ t) (keep-keep n (suc n) xs (omega arith))

-- What was dropped early would be dropped late as well.
keep-newest_first :
    (n : ℕ) (done xs : List Bar)
    → keep n (newest_first done (keep n xs)) ≡ keep n (newest_first done xs)
keep-newest_first n [] xs = keep-keep n n xs (omega arith)
keep-newest_first n (d ∷ done) xs =
    sym (keep-newest_first n done (d ∷ keep n xs))
    ∙ ap (λ (t : List Bar). keep n (newest_first done t)) (keep_after n d xs)
    ∙ keep-newest_first n done (d ∷ xs)

newest_first-append :
    (xs ys kept : List Bar) → newest_first (xs ++ ys) kept ≡ newest_first ys (newest_first xs kept)
newest_first-append [] ys kept = refl
newest_first-append (x ∷ xs) ys kept = newest_first-append xs ys (x ∷ kept)

length-keep : (n : ℕ) (xs : List Bar) → ltb (length (keep n xs)) n ≡ ltb (length xs) n
unfolding keep
length-keep n [] = refl
length-keep ℕ.zero (x ∷ xs) = ground arith
length-keep (suc n) (x ∷ xs) = ground (arith, length-keep n xs)

-- One bar that is not dropped.
accept_bar_window :
    (o : Option Bar) (bar : Bar) (a : Aggregator)
    → a.completed ≡ keep a.lookback_bars a.completed
    → let (after, done) = accept_bar o bar a in
      (after.completed ≡ keep a.lookback_bars (newest_first done a.completed))
      × (after.lookback_bars ≡ a.lookback_bars)
accept_bar_window none bar a h = (h, refl)
accept_bar_window (some current) bar a h =
    elim (Bool-cases (current.timestamp == slot_start a.target_seconds bar.timestamp)) [
      | inl same ↦ rw same (h, refl)
      | inr rolled ↦ rw rolled (refl, refl)
    ]

kept : (n : ℕ) (xs ys : List Bar) → xs ≡ keep n ys → xs ≡ keep n xs
kept n xs ys h = h ∙ sym (keep-keep n n ys (omega arith)) ∙ sym (ap (keep n) h)

add_bars_completed :
    (bars : List Bar) (a : Aggregator)
    → a.completed ≡ keep a.lookback_bars a.completed
    → let (after, done) = add_bars bars a in
      (after.completed ≡ keep a.lookback_bars (newest_first done a.completed))
      × (after.lookback_bars ≡ a.lookback_bars)
unfolding add_bars add_bar
add_bars_completed [] a h = (h, refl)
add_bars_completed (bar ∷ bars) a h = elim (Bool-cases (is_seen a.last_seen_ts bar.timestamp)) [
  | inl seen ↦ rw seen (add_bars_completed bars a h)
  | inr fresh ↦
      let n = a.lookback_bars in
      let (after, done) = accept_bar a.current bar a in
      let (one, same) = accept_bar_window a.current bar a h in
      let later = (add_bars bars after).1 in
      let (rest, same') = add_bars_completed bars after (
        kept after.lookback_bars after.completed (newest_first done a.completed)
          (one ∙ ap (λ (k : ℕ). keep k (newest_first done a.completed)) (sym same))) in
      rw fresh (
        rest
            ∙ ap (λ (k : ℕ). keep k (newest_first later after.completed)) same
            ∙ ap (λ (t : List Bar). keep n (newest_first later t)) one
            ∙ keep-newest_first n later (newest_first done a.completed)
            ∙ ap (keep n) (sym (newest_first-append done later a.completed)),
        same' ∙ same,
      )
]

abbrev window : List Bar → ℕ → Option (List Bar)
window xs n = if ltb (length xs) n then none else some (newest_first xs [])

-- A restart under a new look-back loses no bar of the window: after a state is restored and any bars
-- are fed, the window is the newest bars, as many as the look-back in force, of all that the state
-- held and all completed since, in ascending order; while there are fewer there is no window.
pub restore_window :
    (override : Option ℕ) (bars : List Bar) (a : Aggregator)
    → let n = or_default override a.lookback_bars in
      let (after, done) = add_bars bars (restore override a) in
      let all = newest_first done a.completed in
      get_bar_window after
      ≡ (if ltb (length all) n then none else some (newest_first (keep n all) []))
unfolding restore
restore_window override bars a =
    let n = or_default override a.lookback_bars in
    let b = restore override a in
    let done = (add_bars bars b).1 in
    let all = newest_first done a.completed in
    let (h, same) = add_bars_completed bars b (sym (keep-keep n n a.completed (omega arith))) in
    let shown = h ∙ keep-newest_first n done a.completed in
    ap (λ (xs : List Bar). window xs (add_bars bars b).0.lookback_bars) shown
    ∙ ap (window (keep n all)) same
    ∙ ap (λ (t : Bool). if t then none else some (newest_first (keep n all) [])) (length-keep n all)
