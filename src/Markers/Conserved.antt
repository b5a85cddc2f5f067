-- ===== src/Markers/Conserved.antt =====
-- The markers of ib_trader/engine/exec_markers.py show every share once.
use ib_trader.Prelude.{
  suc, ◌+◌, ◌-◌, ◌≤◌, String, Bool, true, ◌&&◌, Option, none, some, List, [], ◌∷◌, if◌then◌else◌,
  length, Bool-cases, ◌≡◌, refl, sym, ◌∙◌, ap, inl, inr, arith,
}
use ib_trader.Prelude.Text.{str_eq, str_eq_iff}
use ib_trader.Prelude.Int.{ℤ, pos, ◌+ℤ◌, +ℤ-zero, zero-+ℤ, int_laws, ltb_ℤ}
use ib_trader.Markers.{
  Execution, Group, same_order, same_group, absorb, read, merge, merge_read, group_all, place, sort,
  drop, newest, of_symbol, max_per_symbol, compute_exec_markers,
}

length-place : (m : Group) (l : List Group) → length (place m l) ≡ suc (length l)
unfolding place
length-place m [] = refl
length-place m (g ∷ l) = elim (Bool-cases (ltb_ℤ m.time g.time)) [
  | inl h ↦ rw h refl
  | inr h ↦ rw h (ap suc (length-place m l))
]

pub length-sort : (ms acc : List Group) → length (sort ms acc) ≡ length ms + length acc
unfolding sort
length-sort [] acc = omega arith
length-sort (m ∷ ms) acc = omega (arith, length-sort ms (place m acc), length-place m acc)

all_kept : (l : List Group) → length l ≤ max_per_symbol → newest l ≡ l
unfolding drop
all_kept l h = let none_over : length l - max_per_symbol ≡ 0 = omega arith in rw none_over refl

same_sym : (g e : Group) → same_group g e ≡ true → g.sym ≡ e.sym
same_sym g e h =
    (str_eq_iff g.sym e.sym).0 (first (str_eq g.sym e.sym) (same_order g.order e.order) h)
  where
    first : (a b : Bool) → (a && b) ≡ true → a ≡ true
    first a b h = ground arith

regroup : (a b c : ℤ) → a +ℤ (b +ℤ c) ≡ b +ℤ (a +ℤ c)
regroup a b c = omega int_laws

front : (a b c : ℤ) → (a +ℤ b) +ℤ c ≡ b +ℤ (a +ℤ c)
front a b c = omega int_laws

-- A measure of the markers.
module _ (f : Group → ℤ) where
  abbrev pub total : List Group → ℤ
  total [] = pos 0
  total (g ∷ groups) = f g +ℤ total groups

  -- What counts for a symbol.
  abbrev pub share : String → Group → ℤ
  share s g = if str_eq g.sym s then f g else pos 0

  abbrev pub shares : String → List Group → ℤ
  shares s [] = pos 0
  shares s (g ∷ groups) = share s g +ℤ shares s groups

  abbrev pub share_read : String → Option Group → ℤ
  share_read s none = pos 0
  share_read s (some e) = share s e

  abbrev pub share_all : ℤ → ℤ → String → List Execution → ℤ
  share_all now host_offset s [] = pos 0
  share_all now host_offset s (ex ∷ executions) =
      share_read s (read now host_offset ex) +ℤ share_all now host_offset s executions

  total-of_symbol :
      (s : String) (groups : List Group) → total (of_symbol s groups) ≡ shares s groups
  total-of_symbol s [] = refl
  total-of_symbol s (g ∷ groups) = elim (Bool-cases (str_eq g.sym s)) [
    | inl h ↦ rw h (ap (λ (t : ℤ). f g +ℤ t) (total-of_symbol s groups))
    | inr h ↦ rw h (total-of_symbol s groups ∙ sym (zero-+ℤ (shares s groups)))
  ]

  total-place : (m : Group) (l : List Group) → total (place m l) ≡ f m +ℤ total l
  unfolding place
  total-place m [] = refl
  total-place m (g ∷ l) = elim (Bool-cases (ltb_ℤ m.time g.time)) [
    | inl h ↦ rw h refl
    | inr h ↦ rw h (ap (λ (t : ℤ). f g +ℤ t) (total-place m l) ∙ regroup (f g) (f m) (total l))
  ]

  total-sort : (ms acc : List Group) → total (sort ms acc) ≡ total ms +ℤ total acc
  unfolding sort
  total-sort [] acc = sym (zero-+ℤ (total acc))
  total-sort (m ∷ ms) acc =
      total-sort ms (place m acc)
      ∙ ap (λ (t : ℤ). total ms +ℤ t) (total-place m acc)
      ∙ sym (front (f m) (total ms) (total acc))

-- One that a further fill adds to.
module _ (f : Group → ℤ) (additive : (g e : Group) → f (absorb g e) ≡ f g +ℤ f e) where
  share-absorb :
      (s : String) (g e : Group)
      → same_group g e ≡ true
      → share f s (absorb g e) ≡ share f s g +ℤ share f s e
  share-absorb s g e h =
      let same : str_eq g.sym s ≡ str_eq e.sym s =
        ap (λ (x : String). str_eq x s) (same_sym g e h) in
      elim (Bool-cases (str_eq e.sym s)) [
        | inl k ↦ rw (same, k) (additive g e)
        | inr k ↦ rw (same, k) (sym (+ℤ-zero (pos 0)))
      ]

  shares-merge :
      (s : String) (e : Group) (groups : List Group)
      → shares f s (merge e groups) ≡ share f s e +ℤ shares f s groups
  unfolding merge
  shares-merge s e [] = refl
  shares-merge s e (g ∷ groups) = elim (Bool-cases (same_group g e)) [
    | inl h ↦ rw h (
        ap (λ (t : ℤ). t +ℤ shares f s groups) (share-absorb s g e h)
        ∙ front (share f s g) (share f s e) (shares f s groups))
    | inr h ↦ rw h (
        ap (λ (t : ℤ). share f s g +ℤ t) (shares-merge s e groups)
        ∙ regroup (share f s g) (share f s e) (shares f s groups))
  ]

  shares-merge_read :
      (s : String) (o : Option Group) (groups : List Group)
      → shares f s (merge_read o groups) ≡ share_read f s o +ℤ shares f s groups
  shares-merge_read s none groups = sym (zero-+ℤ (shares f s groups))
  shares-merge_read s (some e) groups = shares-merge s e groups

  shares-group_all :
      (now host_offset : ℤ) (s : String) (executions : List Execution) (groups : List Group)
      → shares f s (group_all now host_offset executions groups)
        ≡ share_all f now host_offset s executions +ℤ shares f s groups
  unfolding group_all
  shares-group_all now host_offset s [] groups = sym (zero-+ℤ (shares f s groups))
  shares-group_all now host_offset s (ex ∷ executions) groups =
      let o = read now host_offset ex in
      shares-group_all now host_offset s executions (merge_read o groups)
      ∙ ap (λ (t : ℤ). share_all f now host_offset s executions +ℤ t) (shares-merge_read s o groups)
      ∙ sym
          (front (share_read f s o) (share_all f now host_offset s executions) (shares f s groups))

  total-all :
      (now host_offset : ℤ) (executions : List Execution) (s : String)
      → length (of_symbol s (group_all now host_offset executions [])) ≤ max_per_symbol
      → total f (compute_exec_markers now host_offset executions s)
        ≡ share_all f now host_offset s executions
  unfolding compute_exec_markers
  total-all now host_offset executions s h =
      let groups = group_all now host_offset executions [] in
      let sorted = sort (of_symbol s groups) [] in
      ap (total f) (all_kept sorted (omega (arith, length-sort (of_symbol s groups) [])))
      ∙ total-sort f (of_symbol s groups) []
      ∙ +ℤ-zero (total f (of_symbol s groups))
      ∙ total-of_symbol f s groups
      ∙ shares-group_all now host_offset s executions []
      ∙ +ℤ-zero (share_all f now host_offset s executions)

-- As long as a symbol has no more orders than the limit, its markers show the shares of all its
-- executions, and their prices, weighted by the shares, sum to what was paid.
pub markers_show_all :
    (now host_offset : ℤ) (executions : List Execution) (s : String)
    → length (of_symbol s (group_all now host_offset executions [])) ≤ max_per_symbol
    → let markers = compute_exec_markers now host_offset executions s in
      let qty = λ (g : Group). g.qty in
      let notional = λ (g : Group). g.notional in
      (total qty markers ≡ share_all qty now host_offset s executions)
      × (total notional markers ≡ share_all notional now host_offset s executions)
markers_show_all now host_offset executions s h = (
  total-all (λ (g : Group). g.qty) (λ g e. refl) now host_offset executions s h,
  total-all (λ (g : Group). g.notional) (λ g e. refl) now host_offset executions s h,
)
