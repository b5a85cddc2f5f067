-- ===== src/Recovery/Reconcile.antt =====
-- `_determine_state` of ib_trader/engine/reconciler.py.
use ib_trader.Prelude.{
  Bool, true, false, not, ◌&&◌, Option, none, some, if◌then◌else◌, ◌≡◌, ◌≢◌, arith, ◌⊎◌,
}

-- A state that the store may hold: the four names of the reconciler, or another text.
pub data Position : Type 0 where
  entering : Position
  opened : Position
  exiting : Position
  flat : Position
  other : Position

-- A missing or an empty state is `none`. `order_side` is only logged.
unfoldable pub determine_state : Option Position → Bool → Bool → Position
determine_state none has_order has_position =
    if has_position
    then (if has_order then exiting else opened)
    else (if has_order then entering else flat)
determine_state (some entering) has_order has_position =
    if has_order && not has_position
    then entering
    else (if not has_order && has_position
        then opened
        else (if not has_order && not has_position then flat else entering))
determine_state (some opened) has_order has_position = if has_position then opened else flat
determine_state (some exiting) has_order has_position =
    if has_order && has_position
    then exiting
    else (if not has_order && not has_position
        then flat
        else (if not has_order && has_position then opened else exiting))
determine_state (some flat) has_order has_position =
    if has_order
    then (if has_position then exiting else entering)
    else (if has_position then opened else flat)
determine_state (some other) has_order has_position = other

-- What the broker shows fits a state: the state of the table's first part.
abbrev pub shown : Bool → Bool → Position
shown true true = exiting
shown true false = entering
shown false true = opened
shown false false = flat

-- With no working order the result is what the broker shows, whatever was stored, if it is one of
-- the reconciler's own states.
pub settled_is_shown :
    (s : Option Position) (has_position : Bool)
    → s ≢ some other
    → determine_state s false has_position ≡ shown false has_position
unfolding determine_state
settled_is_shown s has_position h = ground arith

-- Without a stored state, and from FLAT, the result is what the broker shows, orders included.
pub fresh_is_shown :
    (s : Option Position) (has_order has_position : Bool)
    → (s ≡ none) ⊎ (s ≡ some flat)
    → determine_state s has_order has_position ≡ shown has_order has_position
unfolding determine_state
fresh_is_shown s has_order has_position h = ground arith

-- Reconciling twice against the same view of the broker changes nothing the second time, but for one
-- case: OPEN with no position and an order is FLAT first and ENTERING then.
pub reconcile_twice :
    (s : Option Position) (has_order has_position : Bool)
    → let once = determine_state s has_order has_position in
      (determine_state (some once) has_order has_position ≡ once)
      ⊎ ((s ≡ some opened)
          × (has_order ≡ true)
          × (has_position ≡ false)
          × (determine_state (some once) has_order has_position ≡ entering))
unfolding determine_state
reconcile_twice s has_order has_position = ground arith
