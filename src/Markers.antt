-- ===== src/Markers.antt =====
-- ib_trader/engine/exec_markers.py: the markers of the executions on a chart. Times are seconds of
-- the epoch; a price that is averaged is kept as the notional and the quantity that it is the
-- quotient of.
use ib_trader.Prelude.{
  ℕ, zero, suc, ◌+◌, ◌-◌, String, Bool, true, false, not, ◌&&◌, ◌||◌, ◌==◌, Option, none, some,
  List, [], ◌∷◌, if◌then◌else◌, select, length,
}
use ib_trader.Prelude.Text.{str_eq}
use ib_trader.Prelude.Int.{ℤ, pos, ◌+ℤ◌, ◌*ℤ◌, ltb_ℤ}
pub mod Conserved
pub mod Sorted
mod Tests

-- `side` is in capitals; a perm_id that is missing is 0.
pub record Execution : Type 0 where
  pub local_symbol : String
  pub exec_id : String
  pub perm_id : ℕ
  pub side : String
  pub exec_time : Option ℤ
  pub shares : Option ℤ
  pub price : Option ℤ

abbrev pub max_per_symbol : ℕ
max_per_symbol = 300

abbrev pub future_grace : ℤ
future_grace = pos 120

-- The second part of a group's key.
pub data Order : Type 0 where
  by_perm : ℕ → Order
  by_exec : String → Order

abbrev pub same_order : Order → Order → Bool
same_order (by_perm m) (by_perm n) = m == n
same_order (by_exec s) (by_exec t) = str_eq s t
same_order (by_perm m) (by_exec t) = false
same_order (by_exec s) (by_perm n) = false

pub record Group : Type 0 where
  pub sym : String
  pub order : Order
  pub is_buy : Bool
  pub qty : ℤ
  pub notional : ℤ
  pub time : ℤ

abbrev pub order_of : Execution → Order
order_of ex = if ex.perm_id == 0 then by_exec ex.exec_id else by_perm ex.perm_id

abbrev pub corrected : ℤ → ℤ → ℤ → ℤ
corrected now host_offset t = if ltb_ℤ (now +ℤ future_grace) t then t +ℤ host_offset else t

abbrev pub group_of : ℤ → ℤ → Execution → ℤ → ℤ → ℤ → Group
group_of now host_offset ex t shares price = record {
  sym = ex.local_symbol;
  order = order_of ex;
  is_buy = str_eq ex.side "BOT" || str_eq ex.side "BUY" || str_eq ex.side "B";
  qty = shares;
  notional = price *ℤ shares;
  time = corrected now host_offset t;
}

-- A row without a symbol, a time, shares or a price is skipped, and one without positive shares.
abbrev pub complete : ℤ → ℤ → Execution → Option ℤ → Option ℤ → Option ℤ → Option Group
complete now host_offset ex (some t) (some shares) (some price) =
    if str_eq ex.local_symbol "" || not (ltb_ℤ (pos 0) shares)
    then none
    else some (group_of now host_offset ex t shares price)
complete now host_offset ex _ _ _ = none

unfoldable pub read : ℤ → ℤ → Execution → Option Group
read now host_offset ex = complete now host_offset ex ex.exec_time ex.shares ex.price

abbrev pub same_group : Group → Group → Bool
same_group g e = str_eq g.sym e.sym && same_order g.order e.order

-- A further fill of the order; the marker stays at the earliest.
abbrev pub absorb : Group → Group → Group
absorb g e = record g {
  qty = g.qty +ℤ e.qty;
  notional = g.notional +ℤ e.notional;
  time = if ltb_ℤ e.time g.time then e.time else g.time;
}

unfoldable pub merge : Group → List Group → List Group
merge e [] = e ∷ []
merge e (g ∷ groups) =
    let rest = merge e groups in if same_group g e then absorb g e ∷ groups else g ∷ rest

abbrev pub merge_read : Option Group → List Group → List Group
merge_read none groups = groups
merge_read (some e) groups = merge e groups

unfoldable pub group_all : ℤ → ℤ → List Execution → List Group → List Group
group_all now host_offset [] groups = groups
group_all now host_offset (ex ∷ executions) groups =
    group_all now host_offset executions (merge_read (read now host_offset ex) groups)

-- The sort by time is stable.
unfoldable pub place : Group → List Group → List Group
place m [] = m ∷ []
place m (g ∷ groups) =
    let rest = place m groups in if ltb_ℤ m.time g.time then m ∷ g ∷ groups else g ∷ rest

unfoldable pub sort : List Group → List Group → List Group
sort [] sorted = sorted
sort (m ∷ markers) sorted = sort markers (place m sorted)

unfoldable pub drop : ℕ → List Group → List Group
drop zero groups = groups
drop (suc n) [] = []
drop (suc n) (g ∷ groups) = drop n groups

abbrev pub newest : List Group → List Group
newest groups = drop (length groups - max_per_symbol) groups

abbrev pub of_symbol : String → List Group → List Group
of_symbol sym = select (λ (g : Group). str_eq g.sym sym)

-- The entry of a symbol, empty where the code has none.
unfoldable pub compute_exec_markers : ℤ → ℤ → List Execution → String → List Group
compute_exec_markers now host_offset executions sym =
    newest (sort (of_symbol sym (group_all now host_offset executions [])) [])
