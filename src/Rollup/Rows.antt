-- ===== src/Rollup/Rows.antt =====
-- One row of ib_trader/engine/pnl_rollup.py, and all of them: the sums of a slot against those of
-- lists of values.
use ib_trader.Prelude.{
  ℕ, String, Bool, true, false, not, ◌&&◌, ◌||◌, Option, none, some, List, [], ◌∷◌, if◌then◌else◌,
  is_some, Bool-cases, ◌≡◌, refl, subst, ◌∙◌, ap, inl, inr, arith,
}
use ib_trader.Prelude.Text.{str_eq}
use ib_trader.Prelude.Int.{ℤ}
use ib_trader.Rollup.{
  Execution, Lifo, Sweep, FloatOps, Sums, Slot, no_sums, pnl_of, lifo_of, opened_slot, add_sums,
  mark_session, counted,
}
use ib_trader.Rollup.Slots.{or_kept, slot_of}
use ib_trader.Rollup.Values.{
  lifo_value, value, ib_value, of_contract, recent, since_open, cons_value, recent_values,
  session_values, cons_some, ib_session_values,
}

module _ {V : Type 0} (ops : FloatOps V) where
  unfoldable pub total : V → List ℤ → V
  total acc [] = acc
  total acc (v ∷ vs) = total (ops.add acc (ops.float v)) vs

  -- The sum of a session is there once it has a row.
  abbrev pub carried : Option V → V
  carried none = ops.zero_v
  carried (some v) = if ops.is_zero v then ops.zero_v else v

  abbrev pub begun : Option V → V
  begun none = ops.zero_v
  begun (some v) = v

  unfoldable pub session_total : Option V → List (Option ℤ) → Option V
  session_total acc [] = acc
  session_total acc (none ∷ vs) = session_total (some (begun acc)) vs
  session_total acc (some v ∷ vs) = session_total (some (ops.add (carried acc) (ops.float v))) vs

  abbrev pub from : V → Option V → List ℤ → List (Option ℤ) → Sums V
  from p q vs es = record { rolling = total p vs; session = session_total q es }

  -- One row that has a value, and one that has none.
  row_eq :
      (r se : Bool) (v ib : Option ℤ) (p i : V) (q j : Option V) (vs is : List ℤ)
      (es fs : List (Option ℤ))
      → let pnl : Sums V = record { rolling = p; session = q } in
        let ib_pnl : Sums V = record { rolling = i; session = j } in
        let valued = is_some v || is_some ib in
        let a = if valued then mark_session ops se (add_sums ops r se v pnl) else pnl in
        let b = if valued then add_sums ops r se ib ib_pnl else ib_pnl in
        (from a.rolling a.session vs es
          ≡ from p q (if r then cons_value v vs else vs) (if se && valued then v ∷ es else es))
        × (from b.rolling b.session is fs
            ≡ from i j (if r then cons_value ib is else is) (if se then cons_some ib fs else fs))
  unfolding total session_total
  row_eq true true none none p i q j vs is es fs = (refl, refl)
  row_eq true false none none p i q j vs is es fs = (refl, refl)
  row_eq false true none none p i q j vs is es fs = (refl, refl)
  row_eq false false none none p i q j vs is es fs = (refl, refl)
  row_eq true true none (some x) p i none j vs is es fs = (refl, refl)
  row_eq true true none (some x) p i (some q) j vs is es fs = (refl, refl)
  row_eq true false none (some x) p i q j vs is es fs = (refl, refl)
  row_eq false true none (some x) p i none j vs is es fs = (refl, refl)
  row_eq false true none (some x) p i (some q) j vs is es fs = (refl, refl)
  row_eq false false none (some x) p i q j vs is es fs = (refl, refl)
  row_eq true true (some x) none p i q j vs is es fs = (refl, refl)
  row_eq true false (some x) none p i q j vs is es fs = (refl, refl)
  row_eq false true (some x) none p i q j vs is es fs = (refl, refl)
  row_eq false false (some x) none p i q j vs is es fs = (refl, refl)
  row_eq true true (some x) (some y) p i q j vs is es fs = (refl, refl)
  row_eq true false (some x) (some y) p i q j vs is es fs = (refl, refl)
  row_eq false true (some x) (some y) p i q j vs is es fs = (refl, refl)
  row_eq false false (some x) (some y) p i q j vs is es fs = (refl, refl)

  abbrev pub pnl_sums : Option (Slot V) → Sums V
  pnl_sums none = no_sums ops
  pnl_sums (some slot) = slot.pnl

  abbrev pub ib_sums : Option (Slot V) → Sums V
  ib_sums none = no_sums ops
  ib_sums (some slot) = slot.ib_pnl

  same_value : (o : Option Lifo) (ex : Execution) → pnl_of o ex ≡ lifo_value o ex
  same_value none ex = refl
  same_value (some res) ex = refl

  opened :
      (sw : Sweep) (ex : Execution) (o : Option (Slot V))
      → ((opened_slot ops sw ex o).pnl ≡ pnl_sums o)
        × ((opened_slot ops sw ex o).ib_pnl ≡ ib_sums o)
  opened sw ex none = (refl, refl)
  opened sw ex (some slot) = (refl, refl)

  skipped : (a b : Bool) → (not a && not b) ≡ not (a || b)
  skipped a b = ground arith

  -- The sums after a row with a time, of a contract with a name.
  counted_sums :
      (sw : Sweep) (ex : Execution) (ts : ℕ) (o : Option (Slot V))
      → str_eq ex.local_symbol "" ≡ false
      → let after = or_kept ops (counted ops sw ex (some ts) o) o in
        let valued = is_some (value sw ex) || is_some (ib_value ex) in
        let r = recent sw (some ts) in
        let se = since_open sw ex (some ts) in
        (pnl_sums after ≡ (
          if valued
          then mark_session ops se (add_sums ops r se (value sw ex) (pnl_sums o))
          else pnl_sums o))
        × (ib_sums after
            ≡ (if valued then add_sums ops r se (ib_value ex) (ib_sums o) else ib_sums o))
  counted_sums sw ex ts o named =
      let same = same_value (lifo_of sw ex) ex in
      let (first, second) = opened sw ex o in
      elim (Bool-cases (is_some (value sw ex) || is_some (ib_value ex))) [
        | inl h ↦
            rw
              (
                named,
                same,
                skipped (is_some (value sw ex)) (is_some (ib_value ex)),
                h,
                first,
                second,
              )
              (refl, refl)
        | inr h ↦
            rw (named, same, skipped (is_some (value sw ex)) (is_some (ib_value ex)), h)
              (refl, refl)
      ]

  -- The values of a row put before those of later rows.
  abbrev IsRow :
      Sweep
      → String
      → Execution
      → Option ℕ
      → Option (Slot V)
      → Option (Slot V)
      → List ℤ
      → List ℤ
      → List (Option ℤ)
      → List (Option ℤ)
      → Type 0
  IsRow sw s ex t o after vs is es fs =
      let mine = of_contract s ex in
      let valued = is_some (value sw ex) || is_some (ib_value ex) in
      let pnl = pnl_sums o in
      let ib_pnl = ib_sums o in
      (from (pnl_sums after).rolling (pnl_sums after).session vs es
        ≡ from pnl.rolling pnl.session
            (if mine && recent sw t then cons_value (value sw ex) vs else vs)
            (if mine && (since_open sw ex t && valued) then value sw ex ∷ es else es))
      × (from (ib_sums after).rolling (ib_sums after).session is fs
          ≡ from ib_pnl.rolling ib_pnl.session
              (if mine && recent sw t then cons_value (ib_value ex) is else is)
              (if mine && since_open sw ex t then cons_some (ib_value ex) fs else fs))

  not_mine :
      (sw : Sweep) (s : String) (ex : Execution) (t : Option ℕ) (o : Option (Slot V))
      (vs is : List ℤ) (es fs : List (Option ℤ))
      → of_contract s ex ≡ false
      → IsRow sw s ex t o o vs is es fs
  not_mine sw s ex t o vs is es fs h = rw h (refl, refl)

  not_timed :
      (sw : Sweep) (s : String) (ex : Execution) (o : Option (Slot V)) (vs is : List ℤ)
      (es fs : List (Option ℤ))
      → IsRow sw s ex none o o vs is es fs
  not_timed sw s ex o vs is es fs = elim (Bool-cases (of_contract s ex)) [
    | inl h ↦ rw h (refl, refl)
    | inr h ↦ rw h (refl, refl)
  ]

  mine-IsRow :
      (sw : Sweep) (s : String) (ex : Execution) (ts : ℕ) (o : Option (Slot V)) (vs is : List ℤ)
      (es fs : List (Option ℤ))
      → of_contract s ex ≡ true
      → str_eq ex.local_symbol "" ≡ false
      → IsRow sw s ex (some ts) o (or_kept ops (counted ops sw ex (some ts) o) o) vs is es fs
  mine-IsRow sw s ex ts o vs is es fs h named =
      let (pnl, ib) = counted_sums sw ex ts o named in
      let (one, two) =
        row_eq (recent sw (some ts)) (since_open sw ex (some ts)) (value sw ex) (ib_value ex)
          (pnl_sums o).rolling (ib_sums o).rolling (pnl_sums o).session (ib_sums o).session vs is es
          fs in
      (
        ap (λ (x : Sums V). from x.rolling x.session vs es) pnl ∙ one ∙ rw h refl,
        ap (λ (x : Sums V). from x.rolling x.session is fs) ib ∙ two ∙ rw h refl,
      )

  taken : (b : Bool) (x y : Option (Slot V)) → b ≡ true → x ≡ (if b then x else y)
  taken b x y h = rw h refl

  left : (b : Bool) (x y : Option (Slot V)) → b ≡ false → y ≡ (if b then x else y)
  left b x y h = rw h refl

  nameless :
      (sw : Sweep) (ex : Execution) (ts : ℕ) (o : Option (Slot V))
      → str_eq ex.local_symbol "" ≡ true
      → o ≡ or_kept ops (counted ops sw ex (some ts) o) o
  nameless sw ex ts o h = rw h refl

  theirs :
      (s : String) (ex : Execution) → str_eq ex.local_symbol s ≡ false → of_contract s ex ≡ false
  theirs s ex h = rw h refl

  unnamed :
      (s : String) (ex : Execution) → str_eq ex.local_symbol "" ≡ true → of_contract s ex ≡ false
  unnamed s ex h = rw h (ground arith)

  named :
      (s : String) (ex : Execution)
      → str_eq ex.local_symbol s ≡ true
      → str_eq ex.local_symbol "" ≡ false
      → of_contract s ex ≡ true
  named s ex h e = rw (h, e) refl

  one-IsRow :
      (sw : Sweep) (s : String) (ex : Execution) (t : Option ℕ) (o : Option (Slot V))
      (vs is : List ℤ) (es fs : List (Option ℤ))
      → IsRow sw s ex t o
          (if str_eq ex.local_symbol s then or_kept ops (counted ops sw ex t o) o else o)
          vs
          is
          es
          fs
  one-IsRow sw s ex none o vs is es fs = elim (Bool-cases (str_eq ex.local_symbol s)) [
    | inl h ↦
        subst (λ (x : Option (Slot V)). IsRow sw s ex none o x vs is es fs)
          (taken (str_eq ex.local_symbol s) o o h) (not_timed sw s ex o vs is es fs)
    | inr h ↦
        subst (λ (x : Option (Slot V)). IsRow sw s ex none o x vs is es fs)
          (left (str_eq ex.local_symbol s) o o h) (not_timed sw s ex o vs is es fs)
  ]
  one-IsRow sw s ex (some ts) o vs is es fs =
      let mine = str_eq ex.local_symbol s in
      let new = or_kept ops (counted ops sw ex (some ts) o) o in
      elim (Bool-cases mine) [
        | inr h ↦
            subst (λ (x : Option (Slot V)). IsRow sw s ex (some ts) o x vs is es fs)
              (left mine new o h) (not_mine sw s ex (some ts) o vs is es fs (theirs s ex h))
        | inl h ↦ elim (Bool-cases (str_eq ex.local_symbol "")) [
          | inl e ↦
              subst (λ (x : Option (Slot V)). IsRow sw s ex (some ts) o x vs is es fs)
                (nameless sw ex ts o e ∙ taken mine new o h)
                (not_mine sw s ex (some ts) o vs is es fs (unnamed s ex e))
          | inr e ↦
              subst (λ (x : Option (Slot V)). IsRow sw s ex (some ts) o x vs is es fs)
                (taken mine new o h) (mine-IsRow sw s ex ts o vs is es fs (named s ex h e) e)
        ]
      ]

  pub slot_totals :
      (sw : Sweep) (s : String) (executions : List Execution) (o : Option (Slot V))
      → let after = slot_of ops sw s executions o in
        (pnl_sums after
          ≡ from
              (pnl_sums o).rolling
              (pnl_sums o).session
              (recent_values sw s (value sw) executions)
              (session_values sw s executions))
        × (ib_sums after
            ≡ from
                (ib_sums o).rolling
                (ib_sums o).session
                (recent_values sw s ib_value executions)
                (ib_session_values sw s executions))
  unfolding slot_of total session_total recent_values session_values ib_session_values
  slot_totals sw s [] o = (refl, refl)
  slot_totals sw s (ex ∷ executions) o =
      let after =
        if str_eq ex.local_symbol s then or_kept ops (counted ops sw ex ex.exec_time o) o else o in
      let (pnl, ib) = slot_totals sw s executions after in
      let (one, two) =
        one-IsRow sw s ex ex.exec_time o (recent_values sw s (value sw) executions)
          (recent_values sw s ib_value executions) (session_values sw s executions)
          (ib_session_values sw s executions) in
      (pnl ∙ one, ib ∙ two)
