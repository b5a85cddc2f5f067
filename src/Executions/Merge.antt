-- ===== src/Executions/Merge.antt =====
-- The merge of ib_trader/engine/exec_accumulator.py, one execution at a time.
use ib_trader.Prelude.{
  String, Option, none, some, List, [], ◌∷◌, if◌then◌else◌, Bool-cases, ◌≡◌, refl, ◌∙◌, ap, inl,
  inr, arith,
}
use ib_trader.Prelude.Text.{str_eq, str_eq_iff}
use ib_trader.Prelude.Dict.{Dict, lookup, lookup-insert}
use ib_trader.Prelude.Unique.{keep, IsUnique, insert-IsUnique, select-lookup, select-IsUnique}
use ib_trader.Prelude.Int.{ℤ, ◌-ℤ◌}
use ib_trader.Executions.{
  Row, Record, to_record, upsert, merge_record, merge_rows, is_recent, prune, merge_executions,
}

-- The specification: an execution goes by the rows of its own id.
abbrev pub seen : ℤ → ℤ → Option Record → Option Record → Option Record
seen now host_offset o none = o
seen now host_offset o (some rec) = some (upsert now host_offset o rec)

unfoldable pub history : ℤ → ℤ → String → List Row → Option Record → Option Record
history now host_offset id [] o = o
history now host_offset id (ex ∷ fresh) o =
    history now host_offset id fresh
      (if str_eq ex.exec_id id then seen now host_offset o (to_record ex) else o)

merge_record-lookup :
    (now offset : ℤ) (id k : String) (o : Option Record) (out : Dict Record)
    → lookup k (merge_record now offset id o out)
      ≡ (if str_eq id k then seen now offset (lookup k out) o else lookup k out)
merge_record-lookup now offset id k none out = ground arith
merge_record-lookup now offset id k (some rec) out = elim (Bool-cases (str_eq id k)) [
  | inl e ↦
      let same = (str_eq_iff id k).0 e in
      lookup-insert id k (upsert now offset (lookup id out) rec) out
      ∙ rw e (ap (λ (i : String). some (upsert now offset (lookup i out) rec)) same)
  | inr e ↦ lookup-insert id k (upsert now offset (lookup id out) rec) out ∙ rw e refl
]

merge_rows-lookup :
    (now offset : ℤ) (k : String) (fresh : List Row) (out : Dict Record)
    → lookup k (merge_rows now offset fresh out) ≡ history now offset k fresh (lookup k out)
unfolding merge_rows history
merge_rows-lookup now offset k [] out = refl
merge_rows-lookup now offset k (ex ∷ fresh) out =
    merge_rows-lookup now offset k fresh (merge_record now offset ex.exec_id (to_record ex) out)
    ∙ ap (history now offset k fresh)
        (merge_record-lookup now offset ex.exec_id k (to_record ex) out)

pub merge_rows-IsUnique :
    (now offset : ℤ) (fresh : List Row) (out : Dict Record)
    → IsUnique out
    → IsUnique (merge_rows now offset fresh out)
unfolding merge_rows
merge_rows-IsUnique now offset [] out h = h
merge_rows-IsUnique now offset (ex ∷ fresh) out h =
    merge_rows-IsUnique now offset fresh (merge_record now offset ex.exec_id (to_record ex) out)
      (one (to_record ex))
  where
    one : (o : Option Record) → IsUnique (merge_record now offset ex.exec_id o out)
    one none = h
    one (some rec) =
        insert-IsUnique ex.exec_id (upsert now offset (lookup ex.exec_id out) rec) out h

-- An execution of the window.
abbrev pub in_window : ℤ → Option Record → Option Record
in_window cutoff = keep (is_recent cutoff)

pub merge_executions-lookup :
    (stored : Dict Record) (fresh : List Row) (now host_offset window : ℤ) (k : String)
    → IsUnique stored
    → let merged = merge_executions stored fresh now host_offset window in
      (lookup k merged
        ≡ in_window (now -ℤ window) (history now host_offset k fresh (lookup k stored)))
      × IsUnique merged
unfolding merge_executions prune
merge_executions-lookup stored fresh now host_offset window k h =
    let out = merge_rows now host_offset fresh stored in
    let unique = merge_rows-IsUnique now host_offset fresh stored h in
    (
      select-lookup (is_recent (now -ℤ window)) k out unique
          ∙ ap (in_window (now -ℤ window)) (merge_rows-lookup now host_offset k fresh stored),
      select-IsUnique (is_recent (now -ℤ window)) out unique,
    )
