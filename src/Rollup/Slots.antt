-- ===== src/Rollup/Slots.antt =====
-- What the rollup of ib_trader/engine/pnl_rollup.py holds of a contract.
use ib_trader.Prelude.{
  String, Option, none, some, List, [], ◌∷◌, if◌then◌else◌, Bool-cases, ◌≡◌, refl, ◌∙◌, ap, inl,
  inr, arith,
}
use ib_trader.Prelude.Text.{str_eq, str_eq_iff}
use ib_trader.Prelude.Dict.{Dict, lookup, lookup-insert}
use ib_trader.Prelude.Unique.{keep, IsUnique, insert-IsUnique, select-lookup}
use ib_trader.Rollup.{
  Execution, Sweep, FloatOps, Slot, counted, write, roll_up, has_signal, compute_pnl_rollup,
}

module _ {V : Type 0} (ops : FloatOps V) where
  -- The slot of a contract by its own rows alone.
  abbrev pub or_kept : Option (Slot V) → Option (Slot V) → Option (Slot V)
  or_kept none slot = slot
  or_kept (some new) slot = some new

  unfoldable pub slot_of : Sweep → String → List Execution → Option (Slot V) → Option (Slot V)
  slot_of sw s [] slot = slot
  slot_of sw s (ex ∷ executions) slot = slot_of sw s executions (
      if str_eq ex.local_symbol s then or_kept (counted ops sw ex ex.exec_time slot) slot else slot)

  write-lookup :
      (sym s : String) (o : Option (Slot V)) (rollup : Dict (Slot V))
      → lookup s (write ops sym o rollup)
        ≡ (if str_eq sym s then or_kept o (lookup s rollup) else lookup s rollup)
  write-lookup sym s none rollup = ground arith
  write-lookup sym s (some slot) rollup = lookup-insert sym s slot rollup

  same_slot :
      (sw : Sweep) (ex : Execution) (s : String) (rollup : Dict (Slot V))
      → (if str_eq ex.local_symbol s
          then or_kept
              (counted ops sw ex ex.exec_time (lookup ex.local_symbol rollup))
              (lookup s rollup)
          else lookup s rollup)
        ≡ (if str_eq ex.local_symbol s
            then or_kept (counted ops sw ex ex.exec_time (lookup s rollup)) (lookup s rollup)
            else lookup s rollup)
  same_slot sw ex s rollup = elim (Bool-cases (str_eq ex.local_symbol s)) [
    | inl e ↦ rw e (
        ap
          (λ (i : String).
            or_kept (counted ops sw ex ex.exec_time (lookup i rollup)) (lookup s rollup))
          ((str_eq_iff ex.local_symbol s).0 e))
    | inr e ↦ rw e refl
  ]

  roll_up-lookup :
      (sw : Sweep) (s : String) (executions : List Execution) (rollup : Dict (Slot V))
      → lookup s (roll_up ops sw executions rollup) ≡ slot_of sw s executions (lookup s rollup)
  unfolding roll_up slot_of
  roll_up-lookup sw s [] rollup = refl
  roll_up-lookup sw s (ex ∷ executions) rollup =
      let o = counted ops sw ex ex.exec_time (lookup ex.local_symbol rollup) in
      roll_up-lookup sw s executions (write ops ex.local_symbol o rollup)
      ∙ ap (slot_of sw s executions)
          (write-lookup ex.local_symbol s o rollup ∙ same_slot sw ex s rollup)

  write-IsUnique :
      (sym : String) (o : Option (Slot V)) (rollup : Dict (Slot V))
      → IsUnique rollup
      → IsUnique (write ops sym o rollup)
  write-IsUnique sym none rollup h = h
  write-IsUnique sym (some slot) rollup h = insert-IsUnique sym slot rollup h

  roll_up-IsUnique :
      (sw : Sweep) (executions : List Execution) (rollup : Dict (Slot V))
      → IsUnique rollup
      → IsUnique (roll_up ops sw executions rollup)
  unfolding roll_up
  roll_up-IsUnique sw [] rollup h = h
  roll_up-IsUnique sw (ex ∷ executions) rollup h =
      roll_up-IsUnique sw executions _ (write-IsUnique ex.local_symbol _ rollup h)

  -- The rollup has for each contract what the rows of that contract alone add up to, in their order,
  -- and nothing for a contract without a signal, whatever floats do.
  pub compute_pnl_rollup-lookup :
      (sw : Sweep) (executions : List Execution) (s : String)
      → lookup s (compute_pnl_rollup ops sw executions)
        ≡ keep (has_signal ops) (slot_of sw s executions none)
  unfolding compute_pnl_rollup lookup
  compute_pnl_rollup-lookup sw executions s =
      select-lookup (has_signal ops) s (roll_up ops sw executions [])
        (roll_up-IsUnique sw executions [] tt)
      ∙ ap (keep (has_signal ops)) (roll_up-lookup sw s executions [])
