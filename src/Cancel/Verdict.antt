-- ===== src/Cancel/Verdict.antt =====
-- What is recorded of a partly filled order, ib_trader/engine/order.py.
use ib_trader.Prelude.{
  Bool, true, false, Option, none, some, List, [], ◌∷◌, ◌++◌, ◌≡◌, ◌≢◌, ◌↔◌, refl, ◌∙◌, ap, sym,
  ◌⊎◌, inl, inr, All, Bool-cases,
}
use ib_trader.Prelude.Int.{ℤ}
use ib_trader.Cancel.{
  Status, Poll, Resolution, filled, cancelled, timeout, is_full, is_ended, await_resolution, Row,
  cancel_attempt, partial_fill, cancelled_row, Handled, promoted, partial, handle_partial,
  final_fill, final_commission, finish,
}

-- A round that leaves the race open.
abbrev pub IsOpen : ℤ → Poll → Type 0
IsOpen target p = (is_full target p ≡ false) × (is_ended p ≡ false)

-- The first round that decides the race has a property.
abbrev pub First : (Poll → Type 0) → ℤ → List Poll → Type 0
First P target polls =
    (before : List Poll) × (p : Poll) × (after : List Poll) × (polls ≡ before ++ p ∷ after)
    × All (IsOpen target) before
    × P p

pub data Race (target : ℤ) (polls : List Poll) : Resolution → Type 0 where
  won : First (λ (p : Poll). is_full target p ≡ true) target polls → Race target polls filled
  ended :
      First (λ (p : Poll). (is_full target p ≡ false) × (is_ended p ≡ true)) target polls
      → Race target polls cancelled
  open_still : All (IsOpen target) polls → Race target polls timeout

later :
    (P : Poll → Type 0) (target : ℤ) (p : Poll) (polls : List Poll)
    → IsOpen target p
    → First P target polls
    → First P target (p ∷ polls)
later P target p polls h (before, q, after, e, all, x) =
    (p ∷ before, q, after, ap (λ (l : List Poll). p ∷ l) e, (h, all), x)

Race-later :
    (target : ℤ) (p : Poll) (polls : List Poll) {r : Resolution}
    → IsOpen target p
    → Race target polls r
    → Race target (p ∷ polls) r
Race-later target p polls h (won f) = won (later _ target p polls h f)
Race-later target p polls h (ended f) = ended (later _ target p polls h f)
Race-later target p polls h (open_still all) = open_still (h, all)

await_resolution-Race :
    (target : ℤ) (polls : List Poll) (last : Status)
    → Race target polls (await_resolution target polls last).0
unfolding await_resolution
await_resolution-Race target [] last = open_still tt
await_resolution-Race target (p ∷ polls) last = elim (Bool-cases (is_full target p)) [
  | inl full ↦ rw full (won ([], p, polls, refl, tt, full))
  | inr short ↦ elim (Bool-cases (is_ended p)) [
    | inl e ↦ rw (short, e) (ended ([], p, polls, refl, tt, (short, e)))
    | inr on ↦
        rw (short, on)
          (Race-later target p polls (short, on) (await_resolution-Race target polls last))
  ]
]

await_open :
    (target : ℤ) (before rest : List Poll) (last : Status)
    → All (IsOpen target) before
    → await_resolution target (before ++ rest) last ≡ await_resolution target rest last
unfolding await_resolution
await_open target [] rest last _ = refl
await_open target (p ∷ before) rest last ((short, on), all) =
    rw (short, on) (await_open target before rest last all)

open_rest : (xs : List Poll) → xs ++ [] ≡ xs
open_rest [] = refl
open_rest (x ∷ xs) = ap (λ (l : List Poll). x ∷ l) (open_rest xs)

-- The race has one verdict.
Race-await :
    (target : ℤ) (polls : List Poll) (last : Status) {r : Resolution}
    → Race target polls r
    → (await_resolution target polls last).0 ≡ r
unfolding await_resolution
Race-await target polls last (won (before, p, after, e, all, full)) =
    ap (λ (l : List Poll). (await_resolution target l last).0) e
    ∙ ap (λ (x : Resolution × Status). x.0) (await_open target before (p ∷ after) last all)
    ∙ rw full refl
Race-await target polls last (ended (before, p, after, e, all, (short, done))) =
    ap (λ (l : List Poll). (await_resolution target l last).0) e
    ∙ ap (λ (x : Resolution × Status). x.0) (await_open target before (p ∷ after) last all)
    ∙ rw (short, done) refl
Race-await target polls last (open_still all) =
    ap (λ (l : List Poll). (await_resolution target l last).0) (sym (open_rest polls))
    ∙ ap (λ (x : Resolution × Status). x.0) (await_open target polls [] last all)

abbrev pub is_promoted : Handled → Bool
is_promoted (promoted qty avg commission) = true
is_promoted (partial rows alert) = false

abbrev pub is_alert : Handled → Bool
is_alert (promoted qty avg commission) = false
is_alert (partial rows alert) = alert

abbrev pub has_cancelled : List Row → Bool
has_cancelled [] = false
has_cancelled (cancelled_row ∷ rows) = true
has_cancelled (cancel_attempt ∷ rows) = has_cancelled rows
has_cancelled (partial_fill qty avg commission ∷ rows) = has_cancelled rows

abbrev pub is_cancelled_written : Handled → Bool
is_cancelled_written (promoted qty avg commission) = false
is_cancelled_written (partial rows alert) = has_cancelled rows

-- The verdict, and what the records say of it.
abbrev IsSo : ℤ → List Poll → Option Bool → Handled → Type 0
IsSo target polls probe h =
    ((is_promoted h ≡ true) ↔ Race target polls filled)
    × ((is_cancelled_written h ≡ true)
        ↔ (Race target polls cancelled ⊎ (Race target polls timeout × (probe ≡ some false))))
    × ((is_alert h ≡ true) ↔ (Race target polls timeout × (probe ≢ some false)))

finish-IsSo :
    (target : ℤ) (polls : List Poll) (last : Status) (probe : Option Bool) (fill : ℤ × ℤ) (c : ℤ)
    (r : Resolution)
    → Race target polls r
    → IsSo target polls probe (finish r probe fill c)
finish-IsSo target polls last probe (q, a) c filled race =
    let at = Race-await target polls last race in
    (
      (λ _. race, λ _. refl),
      (
        λ h. cc h,
        λ h. elim h [
          | inl x ↦ cc (at, Race-await target polls last x)
          | inr (x, _) ↦ cc (at, Race-await target polls last x)
        ],
      ),
      (λ h. cc h, λ (x, _). cc (at, Race-await target polls last x)),
    )
finish-IsSo target polls last probe (q, a) c cancelled race =
    let at = Race-await target polls last race in
    (
      (λ h. cc h, λ x. cc (at, Race-await target polls last x)),
      (λ _. inl race, λ _. refl),
      (λ h. cc h, λ (x, _). cc (at, Race-await target polls last x)),
    )
finish-IsSo target polls last (some false) (q, a) c timeout race =
    let at = Race-await target polls last race in
    (
      (λ h. cc h, λ x. cc (at, Race-await target polls last x)),
      (λ _. inr (race, refl), λ _. refl),
      (λ h. cc h, λ (_, no_probe). absurd (no_probe refl)),
    )
finish-IsSo target polls last (some true) (q, a) c timeout race =
    let at = Race-await target polls last race in
    (
      (λ h. cc h, λ x. cc (at, Race-await target polls last x)),
      (
        λ h. cc h,
        λ h. elim h [ inl x ↦ cc (at, Race-await target polls last x) | inr (_, e) ↦ cc e ],
      ),
      (λ _. (race, λ e. cc e), λ _. refl),
    )
finish-IsSo target polls last none (q, a) c timeout race =
    let at = Race-await target polls last race in
    (
      (λ h. cc h, λ x. cc (at, Race-await target polls last x)),
      (
        λ h. cc h,
        λ h. elim h [ inl x ↦ cc (at, Race-await target polls last x) | inr (_, e) ↦ cc e ],
      ),
      (λ _. (race, λ e. cc e), λ _. refl),
    )

-- How a cancel ends, by the rounds before the deadline and the probe: the order is promoted to filled
-- exactly when the first round that decides the race shows it full; the CANCELLED row is written
-- exactly when that round shows it ended and not full, or no round decides and the probe says that
-- it is gone, even if the status read after the deadline shows the order full; and the alert is
-- raised exactly when no round decides and the probe does not say so.
pub handle_partial_verdict :
    (qty_requested qty_filled avg_price commission : ℤ) (polls : List Poll) (last : Status)
    (probe : Option Bool)
    → let h = handle_partial qty_requested qty_filled avg_price commission polls last probe in
      ((is_promoted h ≡ true) ↔ Race qty_requested polls filled)
      × ((is_cancelled_written h ≡ true) ↔ (
          Race qty_requested polls cancelled
          ⊎ (Race qty_requested polls timeout × (probe ≡ some false))))
      × ((is_alert h ≡ true) ↔ (Race qty_requested polls timeout × (probe ≢ some false)))
unfolding handle_partial
handle_partial_verdict qty_requested qty_filled avg_price commission polls last probe =
    let (resolution, s) = await_resolution qty_requested polls last in
    finish-IsSo qty_requested polls last probe (final_fill qty_filled avg_price s)
      (final_commission commission s) resolution (await_resolution-Race qty_requested polls last)
