-- ===== src/Daemon/Flagged.antt =====
-- What `run_transaction_reconciliation` of ib_trader/daemon/reconciler.py makes of the open orders.
use ib_trader.Prelude.{
  ℕ, Bool, true, false, not, ◌&&◌, ◌||◌, Option, none, some, List, [], ◌∷◌, ◌++◌, if◌then◌else◌,
  is_some, select, All, Bool-cases, ◌≡◌, refl, subst, ◌∙◌, ap, inl, inr, arith,
}
use ib_trader.Transactions.{Event, Table, insert, same_order, stored, get_open_orders}
use ib_trader.Transactions.OpenOrders.{IsTable, insert-IsTable, is_other, get_open_orders-insert}
use ib_trader.Daemon.{discrepancy_row, is_missing, order_ids, flag, run_transaction_reconciliation}
use ib_trader.Daemon.Orders.{occurs, same_order_eq, occurs_self, open_has_order}

occurs-append :
    (xs ys : List Event) (o : Option ℕ) → occurs (xs ++ ys) o ≡ (occurs xs o || occurs ys o)
occurs-append [] ys o = refl
occurs-append (x ∷ xs) ys o =
    rw (occurs-append xs ys o) (or_assoc (same_order x.ib_order_id o) (occurs xs o) (occurs ys o))
  where
    or_assoc : (a b c : Bool) → (a || (b || c)) ≡ ((a || b) || c)
    or_assoc a b c = ground arith

-- Of three orders, if two pairs are the same order so is the third.
one_out :
    (a b c : Option ℕ)
    → (not (same_order a b) && same_order b c) ≡ (same_order b c && not (same_order a c))
one_out a b c = elim (Bool-cases (same_order b c)) [
  | inl h ↦ rw (same_order_eq b c h) (and_comm (not (same_order a c)) (same_order c c))
  | inr h ↦ rw h (no_and (not (same_order a b)))
]
  where
    and_comm : (x y : Bool) → (x && y) ≡ (y && x)
    and_comm x y = ground arith

    no_and : (x : Bool) → (x && false) ≡ false
    no_and x = ground arith

kept :
    (er ro eo rest : Bool)
    → not er ≡ true
    → (not er && ro) ≡ (ro && not eo)
    → (ro || (rest && not eo)) ≡ ((ro || rest) && not eo)
kept er ro eo rest h k = ground arith

gone :
    (er ro eo rest : Bool)
    → not er ≡ false
    → (not er && ro) ≡ (ro && not eo)
    → (rest && not eo) ≡ ((ro || rest) && not eo)
gone er ro eo rest h k = ground arith

occurs_others :
    (e : Event) (rows : List Event) (o : Option ℕ)
    → occurs (select (is_other e) rows) o ≡ (occurs rows o && not (same_order e.ib_order_id o))
occurs_others e [] o = ground arith
occurs_others e (r ∷ rows) o =
    let out = one_out e.ib_order_id r.ib_order_id o in
    let er = same_order e.ib_order_id r.ib_order_id in
    let ro = same_order r.ib_order_id o in
    let eo = same_order e.ib_order_id o in
    elim (Bool-cases (is_other e r)) [
      | inl h ↦ rw (h, occurs_others e rows o) (kept er ro eo (occurs rows o) h out)
      | inr h ↦ rw (h, occurs_others e rows o) (gone er ro eo (occurs rows o) h out)
    ]

renewed_occurs :
    (i o : Option ℕ) (e : Event)
    → e.ib_order_id ≡ i
    → occurs (if is_some i && true then e ∷ [] else []) o ≡ same_order i o
renewed_occurs none o e h = refl
renewed_occurs (some i) o e h = rw h (or_no (same_order (some i) o))
  where
    or_no : (b : Bool) → (b || false) ≡ b
    or_no b = ground arith

same_again : (occ eo : Bool) → (eo ≡ true → occ ≡ true) → ((occ && not eo) || eo) ≡ occ
same_again occ true h = rw (h refl) refl
same_again occ false h = ground arith

-- A DISCREPANCY row of an open order leaves the open orders as they are.
discrepancy_occurs :
    (txn : Event) (t : Table) (o : Option ℕ)
    → IsTable t
    → occurs (get_open_orders t) txn.ib_order_id ≡ true
    → occurs (get_open_orders (insert (discrepancy_row txn) t)) o ≡ occurs (get_open_orders t) o
discrepancy_occurs txn t o h k =
    let row = discrepancy_row txn in
    let rows = get_open_orders t in
    ap (λ (l : List Event). occurs l o) (get_open_orders-insert row t h)
    ∙ occurs-append (select (is_other (stored row t.next_id)) rows) _ o
    ∙ rw
        (
          occurs_others (stored row t.next_id) rows o,
          renewed_occurs txn.ib_order_id o (stored row t.next_id) refl,
        )
        (same_again (occurs rows o) (same_order txn.ib_order_id o) (λ e.
          subst (λ (i : Option ℕ). occurs rows i ≡ true) (same_order_eq txn.ib_order_id o e) k))

module _ (ib_open : ℕ → Bool) where
  abbrev IsFlagged : List Event → Table → Type 0
  IsFlagged todo t =
      let (after, found) = flag ib_open todo t in
      ((o : Option ℕ) → occurs (get_open_orders after) o ≡ occurs (get_open_orders t) o)
      × (found ≡ select (λ (r : Event). is_missing ib_open r.ib_order_id) todo)

  still_open :
      (t u : Table) (todo : List Event)
      → ((o : Option ℕ) → occurs (get_open_orders u) o ≡ occurs (get_open_orders t) o)
      → All (λ (r : Event). occurs (get_open_orders t) r.ib_order_id ≡ true) todo
      → All (λ (r : Event). occurs (get_open_orders u) r.ib_order_id ≡ true) todo
  still_open t u [] same _ = tt
  still_open t u (r ∷ todo) same (h, hs) = (same r.ib_order_id ∙ h, still_open t u todo same hs)

  flag_every :
      (todo : List Event) (t : Table)
      → IsTable t
      → All (λ (r : Event). occurs (get_open_orders t) r.ib_order_id ≡ true) todo
      → IsFlagged todo t
  unfolding flag
  flag_every [] t h _ = (λ o. refl, refl)
  flag_every (txn ∷ todo) t h (k, ks) = elim (Bool-cases (is_missing ib_open txn.ib_order_id)) [
    | inl m ↦
        let u = insert (discrepancy_row txn) t in
        let same = λ (o : Option ℕ). discrepancy_occurs txn t o h k in
        let (open_after, found) =
          flag_every todo u (insert-IsTable (discrepancy_row txn) t h)
            (still_open t u todo same ks) in
        rw m (λ o. open_after o ∙ same o, ap (λ (l : List Event). txn ∷ l) found)
    | inr m ↦ rw m (flag_every todo t h ks)
  ]

  -- The orders that the log has open and the broker has not are the ones reported, in the order of
  -- the table. Which orders the log has open does not change, so that the next run reports them again.
  pub run_transaction_reconciliation_lem :
      (t : Table)
      → IsTable t
      → let (after, details) = run_transaction_reconciliation ib_open t in
        ((o : Option ℕ) → occurs (get_open_orders after) o ≡ occurs (get_open_orders t) o)
        × (details
            ≡ order_ids
                (select (λ (r : Event). is_missing ib_open r.ib_order_id) (get_open_orders t)))
  unfolding run_transaction_reconciliation
  run_transaction_reconciliation_lem t h =
      let (same, found) =
        flag_every (get_open_orders t) t h (occurs_self (get_open_orders t) (open_has_order t)) in
      (same, ap order_ids found)
