-- ===== src/Markers/Sorted.antt =====
-- The order of the markers of ib_trader/engine/exec_markers.py, and which of them are kept.
use ib_trader.Prelude.{
  ℕ, zero, suc, ◌-◌, ◌≤◌, String, true, false, List, [], ◌∷◌, ◌++◌, length, All, Bool-cases, ◌≡◌,
  refl, subst, ap, inl, inr, arith,
}
use ib_trader.Prelude.Int.{ℤ, ltb_ℤ, ◌≤ℤ◌}
use ib_trader.Markers.{
  Execution, Group, group_all, place, sort, drop, of_symbol, max_per_symbol, compute_exec_markers,
}

abbrev pub IsSorted : List Group → Type 0
IsSorted [] = Unit
IsSorted (g ∷ l) = All (λ (x : Group). g.time ≤ℤ x.time) l × IsSorted l

place-All :
    (t : ℤ) (m : Group) (l : List Group)
    → t ≤ℤ m.time
    → All (λ (x : Group). t ≤ℤ x.time) l
    → All (λ (x : Group). t ≤ℤ x.time) (place m l)
unfolding place
place-All t m [] h _ = (h, tt)
place-All t m (g ∷ l) h (k, ks) = elim (Bool-cases (ltb_ℤ m.time g.time)) [
  | inl e ↦ rw e (h, (k, ks))
  | inr e ↦ rw e (k, place-All t m l h ks)
]

later : (a b c : ℤ) → a ≤ℤ b → b ≤ℤ c → a ≤ℤ c
later a b c h k = omega arith

later-All :
    (a b : ℤ) (l : List Group)
    → a ≤ℤ b
    → All (λ (x : Group). b ≤ℤ x.time) l
    → All (λ (x : Group). a ≤ℤ x.time) l
later-All a b [] h _ = tt
later-All a b (x ∷ l) h (k, ks) = (later a b x.time h k, later-All a b l h ks)

before : (a b : ℤ) → ltb_ℤ a b ≡ true → a ≤ℤ b
before a b h = ground arith

not_before : (a b : ℤ) → ltb_ℤ a b ≡ false → b ≤ℤ a
not_before a b h = ground arith

place-IsSorted : (m : Group) (l : List Group) → IsSorted l → IsSorted (place m l)
unfolding place
place-IsSorted m [] _ = (tt, tt)
place-IsSorted m (g ∷ l) (h, hs) = elim (Bool-cases (ltb_ℤ m.time g.time)) [
  | inl e ↦
      let first = before m.time g.time e in
      rw e ((first, later-All m.time g.time l first h), (h, hs))
  | inr e ↦ rw e (place-All g.time m l (not_before m.time g.time e) h, place-IsSorted m l hs)
]

sort-IsSorted : (ms acc : List Group) → IsSorted acc → IsSorted (sort ms acc)
unfolding sort
sort-IsSorted [] acc h = h
sort-IsSorted (m ∷ ms) acc h = sort-IsSorted ms (place m acc) (place-IsSorted m acc h)

length-drop : (n : ℕ) (l : List Group) → length (drop n l) ≡ length l - n
unfolding drop
length-drop zero l = omega arith
length-drop (suc n) [] = omega arith
length-drop (suc n) (g ∷ l) = omega (arith, length-drop n l)

dropped : (n : ℕ) (l : List Group) → (old : List Group) × (l ≡ old ++ drop n l)
unfolding drop
dropped zero l = ([], refl)
dropped (suc n) [] = ([], refl)
dropped (suc n) (g ∷ l) = let (old, e) = dropped n l in (g ∷ old, ap (λ (x : List Group). g ∷ x) e)

-- The markers of a symbol are at most the limit, and they are the end of a list of all of them in
-- ascending time: none that is left out is later than one that is kept.
pub markers_are_newest :
    (now host_offset : ℤ) (executions : List Execution) (s : String)
    → let all_markers = sort (of_symbol s (group_all now host_offset executions [])) [] in
      let markers = compute_exec_markers now host_offset executions s in
      (length markers ≤ max_per_symbol)
      × ((old : List Group) × (all_markers ≡ old ++ markers) × IsSorted (old ++ markers))
unfolding compute_exec_markers
markers_are_newest now host_offset executions s =
    let groups = of_symbol s (group_all now host_offset executions []) in
    let sorted = sort groups [] in
    let n = length sorted - max_per_symbol in
    let (old, e) = dropped n sorted in
    (omega (arith, length-drop n sorted), (old, e, subst IsSorted e (sort-IsSorted groups [] tt)))
