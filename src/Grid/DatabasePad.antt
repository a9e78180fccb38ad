-- ===== src/Grid/DatabasePad.antt =====
-- `DatabaseRevisionPad` of
-- frontend/rust-lib/flowy-client-sync/src/client_database/database_revision_pad.rs: the fields and the blocks of a
-- grid.
pub mod Methods
pub mod Ids
pub mod Closures
pub mod Runs
use app_flowy.Prelude.{
  ℕ, suc, ◌+◌, Bool, ◌&&◌, ◌||◌, Option, none, some, List, [], ◌∷◌, ◌++◌, get_elem?, if◌then◌else◌,
}
use app_flowy.Prelude.Search.{any, position, remove, insert_at}
use app_flowy.FlowyErrors.{done, failed, can_not_delete_primary_field, panicked}
use app_flowy.OtStr.{Text}
use app_flowy.Attributes.{empty_operation_attributes}
use app_flowy.Attributes.HashMap.{text_eq}
use app_flowy.Delta.Builder
use app_flowy.Pad.{Pad, Edited, on_part}
use app_flowy.Grid.{FieldRevision, GridBlockMetaRevision, DatabaseRevision}

-- " (copy)"
abbrev pub copy_suffix : Text
copy_suffix = 32 ∷ 40 ∷ 99 ∷ 111 ∷ 112 ∷ 121 ∷ 41 ∷ []

-- `Vec::last`
abbrev pub last : {A : Type 0} → List A → Option A
last [] = none
last (x ∷ []) = some x
last (x ∷ y ∷ xs) = last (y ∷ xs)

module _ {Options : Type 0} where
  abbrev pub is_field : Text → FieldRevision Options → Bool
  is_field id field = text_eq field.id id

  unfoldable pub on_fields :
      (List (FieldRevision Options) → Edited (List (FieldRevision Options)))
      → DatabaseRevision Options
      → Edited (DatabaseRevision Options)
  on_fields f d = on_part (λ fields. record d { fields = fields }) (f d.fields)

  unfoldable pub on_blocks :
      (List GridBlockMetaRevision → Edited (List GridBlockMetaRevision))
      → DatabaseRevision Options
      → Edited (DatabaseRevision Options)
  on_blocks f d = on_part (λ blocks. record d { blocks = blocks }) (f d.blocks)

  -- The closures of the methods.
  unfoldable pub insert_before :
      FieldRevision Options → Option ℕ → List (FieldRevision Options) → List (FieldRevision Options)
  insert_before field none fields = fields ++ field ∷ []
  insert_before field (some index) fields = insert_at index field fields

  unfoldable pub index_of : Option Text → List (FieldRevision Options) → Option ℕ
  index_of none fields = none
  index_of (some start_field_id) fields = position (is_field start_field_id) fields

  unfoldable pub create_in :
      FieldRevision Options
      → Option Text
      → List (FieldRevision Options)
      → Edited (List (FieldRevision Options))
  unfolding insert_before index_of
  create_in field start_field_id fields =
      if any (is_field field.id) fields
      then (done none, fields)
      else (done (some tt), insert_before field (index_of start_field_id fields) fields)

  -- The field at an index that was found, and the others.
  unfoldable pub delete_found :
      List (FieldRevision Options)
      → Option (FieldRevision Options × List (FieldRevision Options))
      → Edited (List (FieldRevision Options))
  delete_found fields none = (failed panicked, fields)
  delete_found fields (some (field, rest)) =
      if field.is_primary
      then (failed can_not_delete_primary_field, fields)
      else (done (some tt), rest)

  unfoldable pub delete_in :
      Text → List (FieldRevision Options) → Edited (List (FieldRevision Options))
  unfolding delete_found
  delete_in id fields = elim (position (is_field id) fields) [
    | none ↦ (done none, fields)
    | some index ↦ delete_found fields (remove index fields)
  ]

  unfoldable pub duplicate_found :
      Text
      → ℕ
      → List (FieldRevision Options)
      → Option (FieldRevision Options)
      → Edited (List (FieldRevision Options))
  duplicate_found duplicated_id index fields none = (failed panicked, fields)
  duplicate_found duplicated_id index fields (some field) = (
    done (some tt),
    insert_at (index + 1) (record field { id = duplicated_id; name = field.name ++ copy_suffix })
        fields,
  )

  unfoldable pub duplicate_in :
      Text → Text → List (FieldRevision Options) → Edited (List (FieldRevision Options))
  unfolding duplicate_found
  duplicate_in id duplicated_id fields = elim (position (is_field id) fields) [
    | none ↦ (done none, fields)
    | some index ↦ duplicate_found duplicated_id index fields (get_elem? fields index)
  ]

  unfoldable pub replace_found :
      FieldRevision Options
      → ℕ
      → List (FieldRevision Options)
      → Option (FieldRevision Options × List (FieldRevision Options))
      → Edited (List (FieldRevision Options))
  replace_found field index fields none = (failed panicked, fields)
  replace_found field index fields (some (_, rest)) = (done (some tt), insert_at index field rest)

  unfoldable pub replace_in :
      FieldRevision Options → List (FieldRevision Options) → Edited (List (FieldRevision Options))
  unfolding replace_found
  replace_in field fields = elim (position (is_field field.id) fields) [
    | none ↦ (done none, fields)
    | some index ↦ replace_found field index fields (remove index fields)
  ]

  unfoldable pub contain_field : Text → Pad (DatabaseRevision Options) → Bool
  contain_field id pad = any (is_field id) pad.revision.fields

  unfoldable pub field_from :
      ℕ → Text → List (FieldRevision Options) → Option (ℕ × FieldRevision Options)
  field_from index id [] = none
  field_from index id (field ∷ fields) =
      if is_field id field then some (index, field) else field_from (suc index) id fields

  unfoldable pub get_field_rev :
      Text → Pad (DatabaseRevision Options) → Option (ℕ × FieldRevision Options)
  unfolding field_from
  get_field_rev id pad = field_from 0 id pad.revision.fields

  -- What the hash map of the fields has for an id: the last field with it.
  unfoldable pub field_by_field_id :
      Text → List (FieldRevision Options) → Option (FieldRevision Options)
  field_by_field_id id [] = none
  field_by_field_id id (field ∷ fields) = elim (field_by_field_id id fields) [
    | some later ↦ some later
    | none ↦ if is_field id field then some field else none
  ]

  unfoldable pub fields_of : List Text → List (FieldRevision Options) → List (FieldRevision Options)
  unfolding field_by_field_id
  fields_of [] fields = []
  fields_of (id ∷ ids) fields = elim (field_by_field_id id fields) [
    | none ↦ fields_of ids fields
    | some field ↦ field ∷ fields_of ids fields
  ]

  unfoldable pub get_field_revs :
      Option (List Text) → Pad (DatabaseRevision Options) → List (FieldRevision Options)
  unfolding fields_of
  get_field_revs none pad = pad.revision.fields
  get_field_revs (some field_ids) pad = fields_of field_ids pad.revision.fields
