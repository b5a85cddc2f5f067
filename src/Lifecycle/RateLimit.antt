-- ===== src/Lifecycle/RateLimit.antt =====
-- The circuit breaker `_check_order_rate_limit` of ib_trader/bots/runtime.py, and the note of a
-- submission that `_run_pipeline` makes after it. Times are ticks of the monotonic clock.
use ib_trader.Prelude.{
  ℕ, ◌+◌, ◌≤◌, ◌<◌, Option, none, some, List, [], ◌∷◌, ◌≡◌, refl, arith, if◌then◌else◌, leb, ltb,
  length, inl, inr, Option-cases,
}
use mathlib.Core.Option.{some-injective}
use mathlib.Core.List.{foldl}

-- `[t for t in times if t >= now - window]`
unfoldable pub inside_window : ℕ → ℕ → List ℕ → List ℕ
inside_window now window [] = []
inside_window now window (t ∷ times) =
    let rest = inside_window now window times in if leb now (t + window) then t ∷ rest else rest

-- `none` is the trip: the bot is stopped, the ring is emptied and the pipeline aborts.
unfoldable pub check_order_rate_limit : ℕ → ℕ → ℕ → List ℕ → Option (List ℕ)
check_order_rate_limit limit window now times =
    let recent = inside_window now window times in
    if ltb (length recent + 1) limit then some recent else none

-- `self._recent_submit_times.append(time.monotonic())`; the newest stands first here.
unfoldable pub submit : ℕ → ℕ → ℕ → List ℕ → Option (List ℕ)
unfolding check_order_rate_limit
submit limit window now times = elim (check_order_rate_limit limit window now times) [
  | none ↦ none
  | some recent ↦ some (now ∷ recent)
]

-- Orders submitted at the given times, until the breaker trips.
unfoldable pub submit_all : ℕ → ℕ → List ℕ → List ℕ → Option (List ℕ)
submit_all limit window [] times = some times
submit_all limit window (now ∷ later) times = elim (submit limit window now times) [
  | none ↦ none
  | some kept ↦ submit_all limit window later kept
]

-- How many of the times lie in the window that ends at `now`.
abbrev pub recent_count : ℕ → ℕ → List ℕ → ℕ
recent_count now window times = length (inside_window now window times)

-- What a later window forgets anyway may be forgotten before.
count-inside :
    (n now window : ℕ) (times : List ℕ)
    → now ≤ n
    → recent_count n window (inside_window now window times) ≡ recent_count n window times
unfolding inside_window
count-inside n now window [] le = refl
count-inside n now window (t ∷ times) le = ground (arith, count-inside n now window times le)

-- A later window holds no more of the same times.
count_anti :
    (n now window : ℕ) (times : List ℕ)
    → now ≤ n
    → recent_count n window times ≤ recent_count now window times
unfolding inside_window
count_anti n now window [] le = omega arith
count_anti n now window (t ∷ times) le = ground (arith, count_anti n now window times le)

count-cons :
    (n window t : ℕ) (times : List ℕ)
    → recent_count n window (t ∷ times)
      ≡ (if leb n (t + window) then 1 else 0) + recent_count n window times
unfolding inside_window
count-cons n window t times = ground arith

-- The ring stands for the whole history: from `since` on, every window holds as many of each, and
-- fewer than the limit.
abbrev Tracks : ℕ → ℕ → ℕ → List ℕ → List ℕ → Type 0
Tracks limit window since history ring =
    (n : ℕ)
    → since ≤ n
    → (recent_count n window ring ≡ recent_count n window history)
      × (recent_count n window history < limit)

submit_ring :
    (limit window now : ℕ) (ring : List ℕ) {kept : List ℕ}
    → submit limit window now ring ≡ some kept
    → (kept ≡ now ∷ inside_window now window ring) × (recent_count now window ring + 1 < limit)
unfolding submit
submit_ring limit window now ring e = ground arith

submit-Tracks :
    (limit window since now : ℕ) (history ring : List ℕ) {kept : List ℕ}
    → since ≤ now
    → Tracks limit window since history ring
    → submit limit window now ring ≡ some kept
    → Tracks limit window now (now ∷ history) kept
submit-Tracks limit window since now history ring le tracks e n later =
    let (is, room) = submit_ring limit window now ring e in
    let (same, _) = tracks n (omega arith) in
    let (same_now, _) = tracks now le in
    rw is (
      ground (
        arith,
        count-cons n window now (inside_window now window ring),
        count-cons n window now history,
        count-inside n now window ring later,
      ),
      ground (arith, count-cons n window now history, count_anti n now window history later),
    )

-- The times never go back.
abbrev pub IsAscending : ℕ → List ℕ → Type 0
IsAscending since [] = Unit
IsAscending since (t ∷ times) = (since ≤ t) × IsAscending t times

abbrev pub last_of : ℕ → List ℕ → ℕ
last_of since [] = since
last_of since (t ∷ times) = last_of t times

submit_all-Tracks :
    (limit window since : ℕ) (times history ring : List ℕ) {kept : List ℕ}
    → IsAscending since times
    → Tracks limit window since history ring
    → submit_all limit window times ring ≡ some kept
    → Tracks limit window (last_of since times) (foldl (λ h t. t ∷ h) history times) kept
unfolding submit_all
submit_all-Tracks limit window since [] history ring up tracks e =
    λ n le. rw (← some-injective _ _ e) (tracks n le)
submit_all-Tracks limit window since (now ∷ times) history ring (le, up) tracks e =
    elim (Option-cases (submit limit window now ring)) [
      | inl trip ↦ cc (rw (trip, submit_all) at e)
      | inr (kept, ok) ↦
          submit_all-Tracks limit window now times (now ∷ history) kept up
            (submit-Tracks limit window since now history ring le tracks ok)
            (rw (ok, submit_all) at e)
    ]

-- Orders that are all let through at times that never go back, from an empty ring: the window that
-- ends at the last of them, or later, holds fewer of them than the limit, so at most one less than
-- the limit is ever placed in a window.
pub submit_all_below_limit :
    (limit window : ℕ) (times : List ℕ) {ring : List ℕ}
    → 0 < limit
    → IsAscending 0 times
    → submit_all limit window times [] ≡ some ring
    → (n : ℕ) → last_of 0 times ≤ n
    → recent_count n window (foldl (λ h t. t ∷ h) [] times) < limit
unfolding inside_window
submit_all_below_limit limit window times pos_limit up e n late =
    (submit_all-Tracks limit window 0 times [] [] up (λ m le. (refl, pos_limit)) e n late).1
