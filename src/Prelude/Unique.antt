-- ===== src/Prelude/Unique.antt =====
-- Dicts that hold no key twice, and what a selection by value keeps of them.
use ib_trader.Prelude.Tests.{if◌then◌else◌, Bool-cases}
use ib_trader.Prelude.Lists.{select}
use ib_trader.Prelude.Text.{str_eq, str_eq_iff, str_eq_refl}
use ib_trader.Prelude.Dict.{Dict, lookup, insert, lookup-insert}
use Prim.Native.String.{String}
use mathlib.Core.Path.{◌≡◌, refl, subst, ◌∙◌}
use mathlib.Core.Logic.{inl, inr}
use mathlib.Core.Bool.{Bool, true, false}
use mathlib.Core.Option.{Option, none, some}
use mathlib.Core.List.{[], ◌∷◌}

flip : (i j : String) → str_eq j i ≡ false → str_eq i j ≡ false
flip i j e = elim (Bool-cases (str_eq i j)) [
  | inl h ↦
      let other : str_eq j i ≡ true = rw ((str_eq_iff i j).0 h) (str_eq_refl j) in cc (e, other)
  | inr h ↦ h
]

module _ {V : Type 0} where
  -- A value that passes the test.
  abbrev pub keep : (V → Bool) → Option V → Option V
  keep p none = none
  keep p (some r) = if p r then some r else none

  -- `{k: v for k, v in d.items() if p(v)}`
  abbrev pub kept : (V → Bool) → Dict V → Dict V
  kept p = select (λ (q : String × V). p q.1)

  -- No id is held twice.
  abbrev pub IsUnique : Dict V → Type 0
  IsUnique [] = Unit
  IsUnique ((id, r) ∷ d) = (lookup id d ≡ none) × IsUnique d

  pub insert-IsUnique : (id : String) (r : V) (d : Dict V) → IsUnique d → IsUnique (insert id r d)
  unfolding insert lookup
  insert-IsUnique id r [] _ = (refl, tt)
  insert-IsUnique id r ((j, s) ∷ d) (h, hs) = elim (Bool-cases (str_eq j id)) [
    | inl e ↦ rw (e, IsUnique) (h, hs)
    | inr e ↦
        rw (e, IsUnique) (lookup-insert id j r d ∙ rw (flip id j e) h, insert-IsUnique id r d hs)
  ]

  select-none :
      (p : V → Bool) (k : String) (d : Dict V) → lookup k d ≡ none → lookup k (kept p d) ≡ none
  unfolding lookup
  select-none p k [] h = refl
  select-none p k ((j, r) ∷ d) h = elim (Bool-cases (str_eq j k)) [
    | inl e ↦ let bad : some r ≡ none = subst (λ (o : Option V). o ≡ none) (rw e refl) h in cc bad
    | inr e ↦
        let rest : lookup k d ≡ none = rw e at h in
        elim (Bool-cases (p r)) [
          | inl now ↦ rw (now, e) (select-none p k d rest)
          | inr old ↦ rw old (select-none p k d rest)
        ]
  ]

  pub select-lookup :
      (p : V → Bool) (k : String) (d : Dict V)
      → IsUnique d
      → lookup k (kept p d) ≡ keep p (lookup k d)
  unfolding lookup
  select-lookup p k [] _ = refl
  select-lookup p k ((j, r) ∷ d) (h, hs) = elim (Bool-cases (str_eq j k)) [
    | inl e ↦ elim (Bool-cases (p r)) [
      | inl now ↦ rw (now, e, now) refl
      | inr old ↦ rw (old, e, old) (select-none p k d (rw (← (str_eq_iff j k).0 e) h))
    ]
    | inr e ↦ elim (Bool-cases (p r)) [
      | inl now ↦ rw (now, e) (select-lookup p k d hs)
      | inr old ↦ rw (old, e) (select-lookup p k d hs)
    ]
  ]

  pub select-IsUnique : (p : V → Bool) (d : Dict V) → IsUnique d → IsUnique (kept p d)
  select-IsUnique p [] _ = tt
  select-IsUnique p ((j, r) ∷ d) (h, hs) = elim (Bool-cases (p r)) [
    | inl now ↦ rw (now, IsUnique) (select-none p j d h, select-IsUnique p d hs)
    | inr old ↦ rw old (select-IsUnique p d hs)
  ]
