-- ===== src/Daemon/Orders.antt =====
-- The orders of a list of open rows, for ib_trader/daemon/reconciler.py.
use ib_trader.Prelude.{
  ℕ, Bool, true, not, ◌&&◌, ◌||◌, Option, none, some, List, [], ◌∷◌, is_some, any, All, select-All,
  ◌≡◌, arith,
}
use ib_trader.Transactions.{Event, Table, same_order, is_latest, get_open_orders}

-- An order of the list.
abbrev pub occurs : List Event → Option ℕ → Bool
occurs rows o = any (λ (g : Event). same_order g.ib_order_id o) rows

pub same_order_eq : (a b : Option ℕ) → same_order a b ≡ true → a ≡ b
same_order_eq none b h = ground arith
same_order_eq (some i) none h = ground arith
same_order_eq (some i) (some j) h = ground arith

same_order_refl : (a : Option ℕ) → is_some a ≡ true → same_order a a ≡ true
same_order_refl none h = ground arith
same_order_refl (some i) h = ground arith

or_true : (a b : Bool) → b ≡ true → (a || b) ≡ true
or_true a b h = ground arith

or_left : (a b : Bool) → a ≡ true → (a || b) ≡ true
or_left a b h = ground arith

-- Each row of a list is of one of its orders.
occurs_among :
    (rest pool : List Event)
    → All (λ (r : Event). is_some r.ib_order_id ≡ true) rest
    → ((o : Option ℕ) → occurs rest o ≡ true → occurs pool o ≡ true)
    → All (λ (r : Event). occurs pool r.ib_order_id ≡ true) rest
occurs_among [] pool _ inside = tt
occurs_among (r ∷ rest) pool (h, hs) inside = (
  inside r.ib_order_id (
      or_left (same_order r.ib_order_id r.ib_order_id) (occurs rest r.ib_order_id)
        (same_order_refl r.ib_order_id h)),
  occurs_among rest pool hs
      (λ o k. inside o (or_true (same_order r.ib_order_id o) (occurs rest o) k)),
)

pub occurs_self :
    (rows : List Event)
    → All (λ (r : Event). is_some r.ib_order_id ≡ true) rows
    → All (λ (r : Event). occurs rows r.ib_order_id ≡ true) rows
occurs_self rows h = occurs_among rows rows h (λ o k. k)

and_first : (a b c : Bool) → ((a && b) && c) ≡ true → a ≡ true
and_first a b c h = ground arith

pub open_has_order :
    (t : Table) → All (λ (r : Event). is_some r.ib_order_id ≡ true) (get_open_orders t)
unfolding get_open_orders
open_has_order t =
    select-All (λ (r : Event). is_latest t.rows r && not r.is_terminal) _ t.rows
      (λ r h. and_first (is_some r.ib_order_id) _ (not r.is_terminal) h)
