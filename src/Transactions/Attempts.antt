-- ===== src/Transactions/Attempts.antt =====
-- Unconfirmed placements in the transaction log, and what they are.
use ib_trader.Prelude.{
  String, Bool, true, false, not, ◌&&◌, ◌||◌, Option, none, some, List, [], ◌∷◌, if◌then◌else◌,
  is_some, select, any, Bool-cases, Option-cases, ◌≡◌, ◌↔◌, refl, subst, ◌∙◌, ap, sym, inl, inr,
  arith,
}
use ib_trader.Prelude.Text.{str_eq_iff}
use ib_trader.Transactions.{
  Event, Table, Marks, same_cid, marked, mark, is_attempt, is_accepted, see, attempts, is_of,
  has_unconfirmed_placements,
}

same_cid-eq : (c d : Option String) → same_cid c d ≡ true → c ≡ d
same_cid-eq none none h = refl
same_cid-eq none (some t) h = cc h
same_cid-eq (some s) none h = cc h
same_cid-eq (some s) (some t) h = ap some ((str_eq_iff s t).0 h)

same_cid_self : (c : Option String) → same_cid c c ≡ true
same_cid_self none = refl
same_cid_self (some s) = (str_eq_iff s s).1 refl

apart : (i c d : Option String) → same_cid i c ≡ false → same_cid i d ≡ true → same_cid c d ≡ false
apart i c d e k = elim (Bool-cases (same_cid c d)) [
  | inl h ↦
      let other : same_cid i c ≡ true =
        rw (same_cid-eq c d h, ← same_cid-eq i d k) (same_cid_self i) in
      cc (e, other)
  | inr h ↦ h
]

flip : (c d : Option String) → same_cid d c ≡ false → same_cid c d ≡ false
flip c d e = elim (Bool-cases (same_cid c d)) [
  | inl h ↦
      let other : same_cid d c ≡ true = rw (same_cid-eq c d h) (same_cid_self d) in cc (e, other)
  | inr h ↦ h
]

marked-mark :
    (c d : Option String) (b : Bool) (m : Marks)
    → marked d (mark c b m) ≡ (if same_cid c d then some b else marked d m)
unfolding marked mark
marked-mark c d b [] = refl
marked-mark c d b ((i, a) ∷ m) = elim (Bool-cases (same_cid i c)) [
  | inl e ↦
      let same = same_cid-eq i c e in
      elim (Bool-cases (same_cid i d)) [
        | inl k ↦ rw (e, ← same, k) refl
        | inr k ↦ rw (e, ← same, k) refl
      ]
  | inr e ↦ elim (Bool-cases (same_cid i d)) [
    | inl k ↦ rw (e, k, apart i c d e k) refl
    | inr k ↦ rw (e, k) (marked-mark c d b m)
  ]
]

-- A row that confirms the placements of its id.
abbrev pub confirms : Event → Bool
confirms r = not (is_attempt r.action) && (is_accepted r.action || r.is_terminal)

abbrev pub confirmed : Option String → List Event → Bool
confirmed c = any (λ (r : Event). confirms r && same_cid r.correlation_id c)

abbrev pub attempted : Option String → List Event → Bool
attempted c = any (λ (r : Event). is_attempt r.action && same_cid r.correlation_id c)

-- What is marked after more rows, from what was marked before.
abbrev outcome : Option Bool → Bool → Bool → Option Bool
outcome before tried done =
    if done
    then some true
    else elim before [ some b ↦ some b | none ↦ if tried then some false else none ]

marked_same : (c d : Option String) (m : Marks) → same_cid d c ≡ true → marked d m ≡ marked c m
marked_same c d m h = ap (λ (i : Option String). marked i m) (same_cid-eq d c h)

see_with :
    (t a : Bool) (c d : Option String) (m : Marks)
    → marked c (
        if t
        then (if is_some (marked d m) then m else mark d false m)
        else (if a then mark d true m else m))
      ≡ outcome (marked c m) (t && same_cid d c) ((not t && a) && same_cid d c)
see_with true a c d m = elim (Option-cases (marked d m)) [
  | inl e ↦ elim (Bool-cases (same_cid d c)) [
    | inl h ↦ let same = marked_same c d m h in ground (arith, marked-mark d c false m)
    | inr h ↦ ground (arith, marked-mark d c false m)
  ]
  | inr (b, e) ↦ elim (Bool-cases (same_cid d c)) [
    | inl h ↦ let same = marked_same c d m h in ground arith
    | inr h ↦ ground arith
  ]
]
see_with false true c d m = ground (arith, marked-mark d c true m)
see_with false false c d m = ground arith

marked-see :
    (c : Option String) (r : Event) (m : Marks)
    → marked c (see r m)
      ≡ outcome
          (marked c m)
          (is_attempt r.action && same_cid r.correlation_id c)
          (confirms r && same_cid r.correlation_id c)
marked-see c r m =
    see_with (is_attempt r.action) (is_accepted r.action || r.is_terminal) c r.correlation_id m

outcome_twice :
    (o : Option Bool) (t d t' d' : Bool)
    → outcome (outcome o t d) t' d' ≡ outcome o (t || t') (d || d')
outcome_twice o t d t' d' = ground arith

marked-attempts :
    (c : Option String) (rows : List Event) (m : Marks)
    → marked c (attempts rows m) ≡ outcome (marked c m) (attempted c rows) (confirmed c rows)
unfolding attempts
marked-attempts c [] m = ground arith
marked-attempts c (r ∷ rows) m =
    marked-attempts c rows (see r m)
    ∙ ap (λ (o : Option Bool). outcome o (attempted c rows) (confirmed c rows)) (marked-see c r m)
    ∙ outcome_twice (marked c m) (is_attempt r.action && same_cid r.correlation_id c)
        (confirms r && same_cid r.correlation_id c) (attempted c rows) (confirmed c rows)

-- No id is marked twice.
abbrev IsUnique : Marks → Type 0
IsUnique [] = Unit
IsUnique ((c, b) ∷ m) = (marked c m ≡ none) × IsUnique m

mark-IsUnique : (c : Option String) (b : Bool) (m : Marks) → IsUnique m → IsUnique (mark c b m)
unfolding marked mark
mark-IsUnique c b [] _ = (refl, tt)
mark-IsUnique c b ((d, a) ∷ m) (h, hs) = elim (Bool-cases (same_cid d c)) [
  | inl e ↦ rw (e, IsUnique) (h, hs)
  | inr e ↦ rw (e, IsUnique) (marked-mark c d b m ∙ rw (flip c d e) h, mark-IsUnique c b m hs)
]

see_keeps :
    (t a s : Bool) (d : Option String) (m : Marks)
    → IsUnique m
    → IsUnique (if t then (if s then m else mark d false m) else (if a then mark d true m else m))
see_keeps true a true d m h = h
see_keeps true a false d m h = mark-IsUnique d false m h
see_keeps false true s d m h = mark-IsUnique d true m h
see_keeps false false s d m h = h

attempts-IsUnique : (rows : List Event) (m : Marks) → IsUnique m → IsUnique (attempts rows m)
unfolding attempts
attempts-IsUnique [] m h = h
attempts-IsUnique (r ∷ rows) m h = attempts-IsUnique rows (see r m) (
    see_keeps (is_attempt r.action) (is_accepted r.action || r.is_terminal)
      (is_some (marked r.correlation_id m)) r.correlation_id m h)

abbrev pub any_open : Marks → Bool
any_open = any (λ (p : Option String × Bool). not p.1)

open_found :
    (m : Marks) → IsUnique m → any_open m ≡ true → (c : Option String) × (marked c m ≡ some false)
unfolding marked
open_found [] _ h = cc h
open_found ((c, false) ∷ m) _ h = (c, rw (same_cid_self c) refl)
open_found ((c, true) ∷ m) (new, hs) h =
    let (d, e) = open_found m hs h in
    (
      d,
      elim (Bool-cases (same_cid c d)) [
        | inl k ↦
            let same : marked c m ≡ some false =
              ap (λ (i : Option String). marked i m) (same_cid-eq c d k) ∙ e in
            cc (new, same)
        | inr k ↦ rw k e
      ],
    )

found_open : (c : Option String) (m : Marks) → marked c m ≡ some false → any_open m ≡ true
unfolding marked
found_open c [] h = cc h
found_open c ((d, false) ∷ m) h = refl
found_open c ((d, true) ∷ m) h = elim (Bool-cases (same_cid d c)) [
  | inl k ↦
      let bad : some true ≡ some false =
        subst (λ (o : Option Bool). o ≡ some false) (rw k refl) h in
      cc bad
  | inr k ↦ found_open c m (rw k at h)
]

from_empty :
    (c : Option String) (rows : List Event)
    → marked c (attempts rows []) ≡ outcome none (attempted c rows) (confirmed c rows)
unfolding marked
from_empty c rows = marked-attempts c rows []

open_parts : (a b : Bool) → outcome none a b ≡ some false → (a ≡ true) × (b ≡ false)
open_parts a b h = ground arith

open_of : (a b : Bool) → a ≡ true → b ≡ false → outcome none a b ≡ some false
open_of a b h k = ground arith

-- A trade has unconfirmed placements exactly when some correlation id has a row of an attempt and no
-- row that confirms it, wherever the rows stand in the log.
pub has_unconfirmed_placements_lem :
    (trade_id : String) (t : Table)
    → let pool = select (is_of trade_id) t.rows in
      (has_unconfirmed_placements trade_id t ≡ true)
      ↔ ((c : Option String) × (attempted c pool ≡ true) × (confirmed c pool ≡ false))
unfolding has_unconfirmed_placements
has_unconfirmed_placements_lem trade_id t =
    let pool = select (is_of trade_id) t.rows in
    (
      λ h.
          let (c, e) = open_found (attempts pool []) (attempts-IsUnique pool [] tt) h in
          let (a, b) =
            open_parts (attempted c pool) (confirmed c pool) (sym (from_empty c pool) ∙ e) in
          (c, a, b),
      λ (c, a, b). found_open c (attempts pool []) (from_empty c pool ∙ open_of _ _ a b),
    )
