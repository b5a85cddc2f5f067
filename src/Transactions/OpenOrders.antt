-- ===== src/Transactions/OpenOrders.antt =====
-- The open orders of the transaction log, and what an insert does to them.
use ib_trader.Prelude.{
  ℕ, ◌+◌, ◌<◌, Bool, true, false, not, ◌&&◌, List, [], ◌∷◌, ◌++◌, ltb, if◌then◌else◌, is_some,
  select, all, select-append, select_congr, select_twice, All, All-append, Bool-cases, ◌≡◌, refl,
  ◌∙◌, ap, sym, inl, inr, arith,
}
use ib_trader.Transactions.{Event, Table, stored, insert, same_order, is_latest, get_open_orders}

-- The ids of the rows are those given out already.
abbrev pub IsTable : Table → Type 0
IsTable t = All (λ (r : Event). r.id < t.next_id) t.rows

earlier :
    (n : ℕ) (rows : List Event)
    → All (λ (r : Event). r.id < n) rows
    → All (λ (r : Event). r.id < n + 1) rows
earlier n [] _ = tt
earlier n (r ∷ rows) (h, hs) = (omega arith, earlier n rows hs)

pub insert-IsTable : (e : Event) (t : Table) → IsTable t → IsTable (insert e t)
unfolding insert
insert-IsTable e t h =
    All-append (λ (r : Event). r.id < t.next_id + 1) t.rows (stored e t.next_id ∷ [])
      (earlier t.next_id t.rows h) (omega arith, tt)

-- Of another order.
abbrev pub is_other : Event → Event → Bool
is_other e r = not (same_order e.ib_order_id r.ib_order_id)

-- An open order of the abstract log: a terminal row ends its order, another row renews it.
abbrev pub renewed : Event → List Event
renewed e = if is_some e.ib_order_id && not e.is_terminal then e ∷ [] else []

abbrev pub step : Event → List Event → List Event
step e open_rows = select (is_other e) open_rows ++ renewed e

all-append :
    (p : Event → Bool) (xs : List Event) (x : Event) → all p (xs ++ x ∷ []) ≡ (all p xs && p x)
all-append p [] x = ground arith
all-append p (y ∷ xs) x = elim (Bool-cases (p y)) [
  | inl h ↦ rw h (all-append p xs x)
  | inr h ↦ rw h refl
]

ltb_of_lt : (a b : ℕ) → a < b → ltb a b ≡ true
ltb_of_lt a b h = ground arith

not_ltb : (a b : ℕ) → b < a → ltb a b ≡ false
not_ltb a b h = ground arith

ltb_self : (a : ℕ) → ltb a a ≡ false
ltb_self a = ground arith

regroup : (a b c d : Bool) → ((a && (b && not (c && true))) && d) ≡ (((a && b) && d) && not c)
regroup a b c d = ground arith

no_and : (a b : Bool) → b ≡ true → (not (a && false) && b) ≡ true
no_and a b h = ground arith

last_row :
    (a b c : Bool) (e : Event)
    → (if (a && (true && not (b && false))) && not c then e ∷ [] else [])
      ≡ (if a && not c then e ∷ [] else [])
last_row a b c e = ground arith

-- Older rows stay the latest of their order unless the new row is of it.
old_row :
    (rows : List Event) (e r : Event)
    → r.id < e.id
    → (is_latest (rows ++ e ∷ []) r && not r.is_terminal)
      ≡ ((is_latest rows r && not r.is_terminal) && is_other e r)
old_row rows e r h =
    rw
      (
        all-append (λ (s : Event). not (same_order s.ib_order_id r.ib_order_id && ltb r.id s.id))
            rows e,
        ltb_of_lt r.id e.id h,
      )
      (regroup (is_some r.ib_order_id)
        (all (λ (s : Event). not (same_order s.ib_order_id r.ib_order_id && ltb r.id s.id)) rows)
        (same_order e.ib_order_id r.ib_order_id) (not r.is_terminal))

none_later :
    (rows : List Event) (e : Event)
    → All (λ (r : Event). r.id < e.id) rows
    → all (λ (s : Event). not (same_order s.ib_order_id e.ib_order_id && ltb e.id s.id)) rows ≡ true
none_later [] e _ = refl
none_later (r ∷ rows) e (h, hs) =
    rw (not_ltb e.id r.id h)
      (no_and (same_order r.ib_order_id e.ib_order_id) _ (none_later rows e hs))

new_row :
    (rows : List Event) (e : Event)
    → All (λ (r : Event). r.id < e.id) rows
    → select (λ (r : Event). is_latest (rows ++ e ∷ []) r && not r.is_terminal) (e ∷ []) ≡ renewed e
new_row rows e h =
    rw
      (
        all-append (λ (s : Event). not (same_order s.ib_order_id e.ib_order_id && ltb e.id s.id))
            rows e,
        none_later rows e h,
        ltb_self e.id,
      )
      (last_row (is_some e.ib_order_id) (same_order e.ib_order_id e.ib_order_id) e.is_terminal e)

old_rows :
    (pool rows : List Event) (e : Event)
    → All (λ (r : Event). r.id < e.id) rows
    → All
        (λ (r : Event).
          (is_latest (pool ++ e ∷ []) r && not r.is_terminal)
          ≡ ((is_latest pool r && not r.is_terminal) && is_other e r))
        rows
old_rows pool [] e _ = tt
old_rows pool (r ∷ rows) e (h, hs) = (old_row pool e r h, old_rows pool rows e hs)

-- The query over the log is the abstract log of open orders: an insert ends or renews the order of
-- its row and leaves the others as they were.
pub get_open_orders-insert :
    (e : Event) (t : Table)
    → IsTable t
    → get_open_orders (insert e t) ≡ step (stored e t.next_id) (get_open_orders t)
unfolding get_open_orders insert
get_open_orders-insert e t h =
    let new = stored e t.next_id in
    let keep = λ (r : Event). is_latest (t.rows ++ new ∷ []) r && not r.is_terminal in
    let before = λ (r : Event). is_latest t.rows r && not r.is_terminal in
    select-append keep t.rows (new ∷ [])
    ∙ ap (λ (l : List Event). l ++ select keep (new ∷ []))
        (select_congr keep (λ (r : Event). before r && is_other new r) t.rows
            (old_rows t.rows t.rows new h)
          ∙ sym (select_twice before (is_other new) t.rows))
    ∙ ap (λ (l : List Event). select (is_other new) (select before t.rows) ++ l)
        (new_row t.rows new h)

-- A log after a sequence of inserts, and the abstract log.
abbrev pub insert_all : List Event → Table → Table
insert_all [] t = t
insert_all (e ∷ events) t = insert_all events (insert e t)

abbrev pub run : List Event → ℕ → List Event → List Event
run [] n open_rows = open_rows
run (e ∷ events) n open_rows = run events (n + 1) (step (stored e n) open_rows)

-- In a log of any history, the open orders are what the abstract log of its rows holds.
pub get_open_orders-insert_all :
    (events : List Event) (t : Table)
    → IsTable t
    → get_open_orders (insert_all events t) ≡ run events t.next_id (get_open_orders t)
unfolding insert
get_open_orders-insert_all [] t h = refl
get_open_orders-insert_all (e ∷ events) t h =
    get_open_orders-insert_all events (insert e t) (insert-IsTable e t h)
    ∙ ap (run events (t.next_id + 1)) (get_open_orders-insert e t h)
