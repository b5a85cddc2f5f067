-- ===== src/Daemon/Settled.antt =====
-- What `run_reconciliation` of ib_trader/daemon/reconciler.py makes of the open orders.
use mathlib.Core.List.{append-nil}
use ib_trader.Prelude.{
  ℕ, String, ◌==◌, Bool, true, false, not, ◌&&◌, ◌||◌, Option, none, some, List, [], ◌∷◌, ◌++◌,
  if◌then◌else◌, is_some, select, any, All, select_congr, select_twice, ◌≡◌, refl, sym, subst, ◌∙◌,
  ap, arith,
}
use ib_trader.Transactions.{Event, Table, insert, same_order, get_open_orders, reconciled}
use ib_trader.Transactions.OpenOrders.{IsTable, insert-IsTable, get_open_orders-insert}
use ib_trader.Daemon.{
  IbStatus, ib_filled, ib_cancelled, ib_working, row_of, OrderStatus, Finding, keep, raised, over,
  has_key, number, find_order, reconciled_row, World, settle, Run, reconcile, run_reconciliation,
  order_ids,
}
use ib_trader.Daemon.Orders.{occurs, same_order_eq, occurs_self, open_has_order}

row_is_reconciled : (st : OrderStatus) (txn : Event) → (reconciled_row st txn).action ≡ reconciled
unfolding reconciled_row
row_is_reconciled st txn = go st.status
  where
    go : (s : IbStatus) → (row_of s st txn).action ≡ reconciled
    go ib_filled = refl
    go ib_cancelled = refl
    go ib_working = refl

row_of_order :
    (st : OrderStatus) (txn : Event) → (reconciled_row st txn).ib_order_id ≡ txn.ib_order_id
unfolding reconciled_row
row_of_order st txn = go st.status
  where
    go : (s : IbStatus) → (row_of s st txn).ib_order_id ≡ txn.ib_order_id
    go ib_filled = refl
    go ib_cancelled = refl
    go ib_working = refl

no_row : (a : Bool) (e : Event) → (if a && false then e ∷ [] else []) ≡ []
no_row a e = ground arith

-- A RECONCILED row ends its order.
insert_over :
    (e : Event) (t : Table)
    → IsTable t
    → e.action ≡ reconciled
    → get_open_orders (insert e t)
      ≡ select (λ (r : Event). not (same_order e.ib_order_id r.ib_order_id)) (get_open_orders t)
insert_over e t h a =
    let others =
      select (λ (r : Event). not (same_order e.ib_order_id r.ib_order_id)) (get_open_orders t) in
    get_open_orders-insert e t h
    ∙ ap (λ (l : List Event). others ++ l) (rw a (no_row (is_some e.ib_order_id) _))
    ∙ append-nil others

everywhere : (P : Event → Type 0) → ((x : Event) → P x) → (xs : List Event) → All P xs
everywhere P h [] = tt
everywhere P h (x ∷ xs) = (h x, everywhere P h xs)

and_true : (b : Bool) → (b && true) ≡ b
and_true b = ground arith

first_id :
    (r : Event) (rows : List Event) (i : ℕ)
    → r.ib_order_id ≡ some i
    → order_ids (r ∷ rows) ≡ i ∷ order_ids rows
first_id r rows i e = rw e refl

abbrev pub is_ended : IbStatus → Bool
is_ended ib_filled = true
is_ended ib_cancelled = true
is_ended ib_working = false

-- What the broker tells of an order that is asked for; id 0 never is.
module _ (get_order_status : ℕ → Option OrderStatus) where
  abbrev pub told_over : Option ℕ → Bool
  told_over none = false
  told_over (some i) =
      not (i == 0) && elim (get_order_status i) [ none ↦ false | some st ↦ is_ended st.status ]

  abbrev pub is_over : Event → Bool
  is_over r = told_over r.ib_order_id

  abbrev pub told : Option ℕ → Bool
  told none = true
  told (some i) = i == 0 || is_some (get_order_status i)

  abbrev pub is_answered : Event → Bool
  is_answered r = told r.ib_order_id

module _ (ib_by_id : List String) (get_order_status : ℕ → Option OrderStatus) where
  ends : Finding → Bool
  ends keep = false
  ends raised = false
  ends (over i st) = true

  unfoldable is_found : Event → Bool
  unfolding ends
  is_found r = ends (find_order ib_by_id get_order_status r.ib_order_id)

  abbrev reads_on : Finding → Bool
  reads_on keep = true
  reads_on raised = false
  reads_on (over i st) = true

  abbrev is_read : Event → Bool
  is_read r = reads_on (find_order ib_by_id get_order_status r.ib_order_id)

  -- Ended by one of the rows gone through.
  abbrev dropped : List Event → Event → Bool
  dropped gone r = any (λ (g : Event). is_found g && same_order g.ib_order_id r.ib_order_id) gone

  factor : (a b c s : Bool) (f : a ≡ true → b ≡ c) → ((b && a) || (c && s)) ≡ (c && (a || s))
  factor true b c s f = let h = f refl in ground arith
  factor false b c s f = ground arith

  dropped-occurs :
      (gone : List Event) (r : Event) → dropped gone r ≡ (is_found r && occurs gone r.ib_order_id)
  unfolding is_found
  dropped-occurs [] r = ground arith
  dropped-occurs (g ∷ gone) r = rw (dropped-occurs gone r) (
      factor (same_order g.ib_order_id r.ib_order_id) (is_found g) (is_found r)
        (occurs gone r.ib_order_id) (λ h. rw (same_order_eq g.ib_order_id r.ib_order_id h) refl))

  drop_more : (a b : Bool) → (not a && not b) ≡ not (a || b)
  drop_more a b = ground arith

  keep_all : (xs : List Event) → xs ≡ select (λ (r : Event). true) xs
  keep_all [] = refl
  keep_all (x ∷ xs) = ap (λ (l : List Event). x ∷ l) (keep_all xs)

  ended_order :
      (o : Option ℕ) (i : ℕ) (st : OrderStatus)
      → find_order ib_by_id get_order_status o ≡ over i st
      → o ≡ some i
  unfolding find_order
  ended_order none i st h = ground arith
  ended_order (some j) i st h = ground arith

  settle_open :
      (st : OrderStatus) (txn : Event) (w : World)
      → IsTable w.log
      → get_open_orders (settle st txn w).log
        ≡ select
            (λ (r : Event). not (same_order txn.ib_order_id r.ib_order_id))
            (get_open_orders w.log)
  unfolding settle
  settle_open st txn w h =
      let row = reconciled_row st txn in
      insert_over row w.log h (row_is_reconciled st txn) ∙ rw (row_of_order st txn) refl

  settle-IsTable :
      (st : OrderStatus) (txn : Event) (w : World) → IsTable w.log → IsTable (settle st txn w).log
  unfolding settle
  settle-IsTable st txn w h = insert-IsTable (reconciled_row st txn) w.log h

  -- One round of the loop, by what it finds.
  after_round : Event → List Event → World → Finding → Run
  after_round txn todo w keep = reconcile ib_by_id get_order_status todo w
  after_round txn todo w raised = record { world = w; changes = []; failed = true }
  after_round txn todo w (over i st) =
      let run = reconcile ib_by_id get_order_status todo (settle st txn w) in
      record run { changes = i ∷ run.changes }

  round_eq :
      (txn : Event) (todo : List Event) (w : World) (f : Finding)
      → find_order ib_by_id get_order_status txn.ib_order_id ≡ f
      → (reconcile ib_by_id get_order_status (txn ∷ todo) w ≡ after_round txn todo w f)
        × (is_found txn ≡ ends f)
  unfolding reconcile is_found after_round ends
  round_eq txn todo w keep e = (rw (e, reconcile) refl, rw (e, is_found) refl)
  round_eq txn todo w raised e = (rw (e, reconcile) refl, rw (e, is_found) refl)
  round_eq txn todo w (over i st) e = (rw (e, reconcile) refl, rw (e, is_found) refl)

  IsRunOf : List Event → World → Run → Type 0
  IsRunOf todo w run =
      (get_open_orders run.world.log
        ≡ select (λ (r : Event). not (dropped todo r)) (get_open_orders w.log))
      × (run.changes ≡ order_ids (select is_found todo))
      × (run.failed ≡ false)

  one_round :
      (txn : Event) (todo : List Event) (w : World) (f : Finding)
      → find_order ib_by_id get_order_status txn.ib_order_id ≡ f
      → IsTable w.log
      → is_read txn ≡ true
      → ((v : World) → IsTable v.log → IsRunOf todo v (reconcile ib_by_id get_order_status todo v))
      → IsRunOf (txn ∷ todo) w (after_round txn todo w f)
  unfolding after_round IsRunOf ends
  one_round txn todo w keep e h a ih = let over = (round_eq txn todo w keep e).1 in rw over (ih w h)
  one_round txn todo w raised e h a ih = let bad : false ≡ true = rw (e, is_read) at a in cc bad
  one_round txn todo w (over i st) e h a ih =
      let ended = (round_eq txn todo w (over i st) e).1 in
      let (left, changes, failed) = ih (settle st txn w) (settle-IsTable st txn w h) in
      rw ended (
        left
            ∙ ap (select (λ (r : Event). not (dropped todo r))) (settle_open st txn w h)
            ∙ select_twice _ (λ (r : Event). not (dropped todo r)) (get_open_orders w.log)
            ∙ select_congr _ _ (get_open_orders w.log) (
                everywhere _
                  (λ (r : Event).
                    drop_more (same_order txn.ib_order_id r.ib_order_id) (dropped todo r))
                  (get_open_orders w.log)),
        ap (λ (l : List ℕ). i ∷ l) changes
            ∙ sym (first_id txn (select is_found todo) i (ended_order txn.ib_order_id i st e)),
        failed,
      )

  every_round :
      (todo : List Event) (w : World)
      → IsTable w.log
      → All (λ (r : Event). is_read r ≡ true) todo
      → IsRunOf todo w (reconcile ib_by_id get_order_status todo w)
  unfolding IsRunOf reconcile
  every_round [] w h _ = (keep_all (get_open_orders w.log), refl, refl)
  every_round (txn ∷ todo) w h (a, rest) =
      let f = find_order ib_by_id get_order_status txn.ib_order_id in
      subst (IsRunOf (txn ∷ todo) w) (sym (round_eq txn todo w f refl).0)
        (one_round txn todo w f refl h a (λ v k. every_round todo v k rest))

  over_alone :
      (pool rows : List Event)
      → All (λ (r : Event). occurs pool r.ib_order_id ≡ true) rows
      → All (λ (r : Event). not (dropped pool r) ≡ not (is_found r)) rows
  over_alone pool [] _ = tt
  over_alone pool (r ∷ rows) (h, hs) =
      (ap not (dropped-occurs pool r ∙ rw h (and_true (is_found r))), over_alone pool rows hs)

  no_text : (i : ℕ) (ids : List String) → has_key (number i) ids ≡ false
  unfolding has_key
  no_text i [] = refl
  no_text i (id ∷ ids) = no_text i ids

  found_is_over :
      (o : Option ℕ) → ends (find_order ib_by_id get_order_status o) ≡ told_over get_order_status o
  unfolding find_order ends
  found_is_over none = refl
  found_is_over (some i) = rw (no_text i ib_by_id) (ground arith)

  found : (r : Event) → is_found r ≡ is_over get_order_status r
  unfolding is_found ends
  found r = found_is_over r.ib_order_id

  read_is_answered :
      (o : Option ℕ) → reads_on (find_order ib_by_id get_order_status o) ≡ told get_order_status o
  unfolding find_order
  read_is_answered none = refl
  read_is_answered (some i) = rw (no_text i ib_by_id) (ground arith)

  every_read :
      (rows : List Event)
      → All (λ (r : Event). is_answered get_order_status r ≡ true) rows
      → All (λ (r : Event). is_read r ≡ true) rows
  every_read [] _ = tt
  every_read (r ∷ rows) (h, hs) = (read_is_answered r.ib_order_id ∙ h, every_read rows hs)

  -- When every status read is answered, the reconciliation ends the open orders that the broker
  -- tells to be filled or cancelled, but for one with the id 0, reports exactly these, in the order
  -- of the table, and leaves the other open orders as they are. The ids that the broker shows open
  -- play no part, since they are texts and those of the log are numbers.
  pub run_reconciliation_lem :
      (w : World)
      → IsTable w.log
      → All (λ (r : Event). is_answered get_order_status r ≡ true) (get_open_orders w.log)
      → let run = run_reconciliation ib_by_id get_order_status w in
        let over = is_over get_order_status in
        (get_open_orders run.world.log
          ≡ select (λ (r : Event). not (over r)) (get_open_orders w.log))
        × (run.changes ≡ order_ids (select over (get_open_orders w.log)))
        × (run.failed ≡ false)
  unfolding run_reconciliation IsRunOf
  run_reconciliation_lem w h a =
      let rows = get_open_orders w.log in
      let (left, changes, failed) = every_round rows w h (every_read rows a) in
      rw failed (
        left
            ∙ select_congr _ _ rows (over_alone rows rows (occurs_self rows (open_has_order w.log)))
            ∙ select_congr _ _ rows (everywhere _ (λ (r : Event). ap not (found r)) rows),
        changes ∙ ap order_ids (select_congr _ _ rows (everywhere _ found rows)),
        refl,
      )
