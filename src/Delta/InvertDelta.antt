-- ===== src/Delta/InvertDelta.antt =====
-- `invert` against a delta, with `invert_other`, and `trim`, of
-- shared-lib/lib-ot/src/core/delta/ops.rs. `none` is what the iterator returns when it does not end.
use app_flowy.Prelude.{ℕ, ◌+◌, ◌&&◌, Option, none, some, List, [], ◌∷◌, on_last, if◌then◌else◌}
use app_flowy.Interval.{interval}
use app_flowy.OtStr.{utf16_len}
use app_flowy.Attributes.{OperationAttributes}
use app_flowy.Delta.Operation.{
  DeltaOperation, delete, retain, insert, len, get_attributes, has_attribute, is_retain, is_plain,
}
use app_flowy.Delta.Ops.{DeltaOperations, new, add, add_delete, add_retain}
use app_flowy.Delta.Cursor
use app_flowy.Delta.Cursor.{new_cursor}

module _ {T : Type 0} ⦃attrs : OperationAttributes T⦄ where
  -- The closure of `invert_other` for one operation.
  unfoldable pub invert_one :
      DeltaOperation T → DeltaOperation T → DeltaOperations T → DeltaOperations T
  invert_one (delete n) other_op base = add other_op base
  invert_one (retain n a) other_op base =
      add_retain (len other_op) (attrs.invert a (get_attributes other_op)) base
  invert_one (insert s a) other_op base = base

  unfoldable pub invert_each :
      DeltaOperation T → List (DeltaOperation T) → DeltaOperations T → DeltaOperations T
  unfolding invert_one
  invert_each op [] base = base
  invert_each op (other_op ∷ others) base = invert_each op others (invert_one op other_op base)

  unfoldable pub invert_other :
      DeltaOperations T → DeltaOperations T → DeltaOperation T → ℕ → ℕ → Option (DeltaOperations T)
  unfolding invert_each
  invert_other base other op start end = elim (Cursor.ops (new_cursor other (interval start end))) [
    | none ↦ none
    | some other_ops ↦ some (invert_each op other_ops base)
  ]

  -- The loop, behind the operations that reach up to `index`.
  unfoldable pub invert_loop :
      List (DeltaOperation T)
      → DeltaOperations T
      → ℕ
      → DeltaOperations T
      → Option (DeltaOperations T)
  unfolding invert_other
  invert_loop [] other index inverted = some inverted
  invert_loop (delete n ∷ ops) other index inverted =
      elim (invert_other inverted other (delete n) index (index + n)) [
        | none ↦ none
        | some inverted' ↦ invert_loop ops other (index + n) inverted'
      ]
  invert_loop (retain n a ∷ ops) other index inverted =
      elim (if has_attribute (retain n a)
        then invert_other inverted other (retain n a) index (index + n)
        else some (add_retain n a inverted)) [
          | none ↦ none
          | some inverted' ↦ invert_loop ops other (index + n) inverted'
        ]
  invert_loop (insert s a ∷ ops) other index inverted =
      invert_loop ops other index (add_delete (utf16_len s) inverted)

  unfoldable pub invert : DeltaOperations T → DeltaOperations T → Option (DeltaOperations T)
  unfolding invert_loop
  invert d other = invert_loop d.ops other 0 new

  -- The last operation, if it is kept.
  unfoldable pub trimmed : Option (DeltaOperation T) → List (DeltaOperation T)
  trimmed none = []
  trimmed (some op) = if is_retain op && is_plain op then [] else op ∷ []

  unfoldable pub trim : DeltaOperations T → DeltaOperations T
  unfolding trimmed
  trim d = record d { ops = on_last trimmed d.ops }
