-- ===== src/Bars/Order.antt =====
-- The times of the bars that BarAggregator of ib_trader/bots/bar_aggregator.py completes.
use ib_trader.Prelude.{
  ℕ, suc, ◌≤◌, ◌<◌, true, false, Option, none, some, List, [], ◌∷◌, ◌++◌, ◌==◌, ◌≡◌, ◌≢◌, refl, ◌∙◌,
  sym, ap, arith, All, Bool-cases, inl, inr, All-append,
}
use mathlib.Core.Option.{some-injective}
use ib_trader.Bars.{
  start_bar, extend_bar, Bar, Aggregator, slot_start, is_seen, accept_bar, add_bar, add_bars,
}

slot_mono : (a b t : ℕ) → 0 < t → a ≤ b → slot_start t a ≤ slot_start t b
slot_mono a b t p h = grind arith

-- Strictly ascending times from a bound on.
abbrev pub IsAscending : ℕ → List Bar → Type 0
IsAscending low [] = Unit
IsAscending low (bar ∷ bars) = (low ≤ bar.timestamp) × IsAscending (suc bar.timestamp) bars

abbrev pub IsBefore : ℕ → List Bar → Type 0
IsBefore high bars = All (λ (bar : Bar). bar.timestamp < high) bars

-- The slot in progress.
abbrev pub slot_of : Option Bar → ℕ
slot_of none = 0
slot_of (some bar) = bar.timestamp

-- The bar in progress stands in the slot of the last bar seen.
abbrev pub IsCurrent : Aggregator → Type 0
IsCurrent a =
    (0 < a.target_seconds)
    × ((bar : Bar)
        → a.current ≡ some bar
        → (last : ℕ) × (a.last_seen_ts ≡ some last)
          × (bar.timestamp ≡ slot_start a.target_seconds last))

-- What one or more bars do: the order of the completed bars, and the slot in progress.
abbrev pub IsOrdered : Aggregator → Aggregator × List Bar → Type 0
IsOrdered a (after, done) =
    IsCurrent after
    × (slot_of a.current ≤ slot_of after.current)
    × IsAscending (slot_of a.current) done
    × IsBefore (slot_of after.current) done

IsAscending-from :
    (low high : ℕ) (bars : List Bar) → low ≤ high → IsAscending high bars → IsAscending low bars
IsAscending-from low high [] le _ = tt
IsAscending-from low high (bar ∷ bars) le (h, hs) = (omega arith, hs)

IsBefore-to : (low high : ℕ) (bars : List Bar) → low ≤ high → IsBefore low bars → IsBefore high bars
IsBefore-to low high [] le _ = tt
IsBefore-to low high (bar ∷ bars) le (h, hs) = (omega arith, IsBefore-to low high bars le hs)

IsAscending-append :
    (low mid : ℕ) (xs ys : List Bar)
    → low ≤ mid
    → IsAscending low xs
    → IsBefore mid xs
    → IsAscending mid ys
    → IsAscending low (xs ++ ys)
IsAscending-append low mid [] ys le _ _ up = IsAscending-from low mid ys le up
IsAscending-append low mid (x ∷ xs) ys le (h, hs) (b, bs) up =
    (h, IsAscending-append (suc x.timestamp) mid xs ys (omega arith) hs bs up)

both-IsOrdered :
    (a : Aggregator) (first second : Aggregator × List Bar)
    → IsOrdered a first
    → IsOrdered first.0 second
    → IsOrdered a (second.0, first.1 ++ second.1)
both-IsOrdered a (mid, xs) (last, ys) (_, up, asc, bef) (cur, up', asc', bef') = (
  cur,
  omega arith,
  IsAscending-append (slot_of a.current) (slot_of mid.current) xs ys up asc bef asc',
  All-append (λ (bar : Bar). bar.timestamp < slot_of last.current) xs ys
      (IsBefore-to (slot_of mid.current) (slot_of last.current) xs up' bef) bef',
)

stands :
    (target ts : ℕ) (made other : Bar)
    → made.timestamp ≡ slot_start target ts
    → some made ≡ some other
    → (last : ℕ) × (some ts ≡ some last) × (other.timestamp ≡ slot_start target last)
stands target ts made other at e =
    (ts, refl, ap (λ (b : Bar). b.timestamp) (sym (some-injective made other e)) ∙ at)

later_than : (o : Option ℕ) (last ts : ℕ) → o ≡ some last → is_seen o ts ≡ false → last ≤ ts
later_than o last ts e h = ground (arith, rw e at h)

equal_of_test : (a b : ℕ) → (a == b) ≡ true → a ≡ b
equal_of_test a b h = ground arith

unequal_of_test : (a b : ℕ) → (a == b) ≡ false → a ≢ b
unequal_of_test a b h = ground arith

accept_bar-IsOrdered :
    (o : Option Bar) (bar : Bar) (a : Aggregator)
    → a.current ≡ o
    → IsCurrent a
    → is_seen a.last_seen_ts bar.timestamp ≡ false
    → IsOrdered a (accept_bar o bar a)
accept_bar-IsOrdered none bar a e (p, h) fresh =
    let slot = slot_start a.target_seconds bar.timestamp in
    (
      (p, λ other k. stands a.target_seconds bar.timestamp (start_bar slot bar) other refl k),
      omega (arith, ap slot_of e),
      tt,
      tt,
    )
accept_bar-IsOrdered (some current) bar a e (p, h) fresh =
    let slot = slot_start a.target_seconds bar.timestamp in
    let (last, seen, at) = h current e in
    let le = later_than a.last_seen_ts last bar.timestamp seen fresh in
    let mono = slot_mono last bar.timestamp a.target_seconds p le in
    let held = ap slot_of e in
    elim (Bool-cases (current.timestamp == slot)) [
      | inl same ↦ rw same (
        (
          p,
          λ other k.
              stands a.target_seconds bar.timestamp (extend_bar current bar) other
                (equal_of_test current.timestamp slot same) k,
        ),
        omega (arith, held),
        tt,
        tt,
      )
      | inr rolled ↦
          let apart = unequal_of_test current.timestamp slot rolled in
          rw rolled (
            (p, λ other k. stands a.target_seconds bar.timestamp (start_bar slot bar) other refl k),
            omega (arith, held, at, mono),
            (omega (arith, held), tt),
            (omega (arith, at, mono, apart), tt),
          )
    ]

-- Completed bars come out in strictly ascending slots, from the slot that was in progress before on,
-- and all before the one in progress afterwards, whatever the order of the bars fed: a bar that is
-- not later than the last one is dropped.
pub add_bars-IsOrdered :
    (bars : List Bar) (a : Aggregator) → IsCurrent a → IsOrdered a (add_bars bars a)
unfolding add_bars add_bar
add_bars-IsOrdered [] a cur = (cur, omega arith, tt, tt)
add_bars-IsOrdered (bar ∷ bars) a cur = elim (Bool-cases (is_seen a.last_seen_ts bar.timestamp)) [
  | inl seen ↦ rw seen (add_bars-IsOrdered bars a cur)
  | inr fresh ↦
      let first = accept_bar a.current bar a in
      let one = accept_bar-IsOrdered a.current bar a refl cur fresh in
      rw fresh
        (both-IsOrdered a first (add_bars bars first.0) one (add_bars-IsOrdered bars first.0 one.0))
]
