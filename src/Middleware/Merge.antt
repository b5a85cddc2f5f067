-- ===== src/Middleware/Merge.antt =====
-- What `_write_state` of ib_trader/bots/runtime.py makes of a document: `{**existing, **fields}`
-- without the stripped keys.
use ib_trader.Prelude.{
  String, Option, none, some, [], ◌∷◌, if◌then◌else◌, ◌≡◌, ◌∙◌, subst, arith, Bool-cases, inl, inr,
}
use ib_trader.Prelude.Text.{str_eq, str_eq_iff, str_eq_refl}
use ib_trader.Prelude.Dict.{Dict, insert, lookup, lookup-insert, lookup-insert_self}
use ib_trader.Middleware.Pipeline.{is_stripped, write_state}

-- No key twice, as in a Python dict.
abbrev pub IsUnique : Dict String → Type 0
IsUnique [] = Unit
IsUnique ((k, v) ∷ d) = (lookup k d ≡ none) × IsUnique d

-- A dict over another: the first one's values, and the second's for the keys it lacks.
abbrev pub over : Option String → Option String → Option String
over none old = old
over (some v) _ = some v

one_field :
    (k j v : String) (fields doc : Dict String)
    → lookup j fields ≡ none
    → let rest = if is_stripped j then doc else insert j v doc in
      (if is_stripped k then lookup k rest else over (lookup k fields) (lookup k rest)) ≡ (
        if is_stripped k
        then lookup k doc
        else over (if str_eq j k then some v else lookup k fields) (lookup k doc))
one_field k j v fields doc fresh = elim (Bool-cases (str_eq j k)) [
  | inl same ↦
      subst
        (λ (i : String).
          (if is_stripped i
            then lookup i (if is_stripped j then doc else insert j v doc)
            else over (lookup i fields) (lookup i (if is_stripped j then doc else insert j v doc)))
          ≡ (if is_stripped i
              then lookup i doc
              else over (if str_eq j i then some v else lookup i fields) (lookup i doc)))
        ((str_eq_iff j k).0 same) (ground (arith, fresh, lookup-insert_self j v doc, str_eq_refl j))
  | inr other ↦ ground (arith, other, lookup-insert j k v doc)
]

pub lookup-write_state :
    (k : String) (fields doc : Dict String)
    → IsUnique fields
    → lookup k (write_state fields doc)
      ≡ (if is_stripped k then lookup k doc else over (lookup k fields) (lookup k doc))
unfolding lookup write_state
lookup-write_state k [] doc _ = ground arith
lookup-write_state k ((j, v) ∷ fields) doc (fresh, unique) =
    let rest = if is_stripped j then doc else insert j v doc in
    lookup-write_state k fields rest unique ∙ one_field k j v fields doc fresh
