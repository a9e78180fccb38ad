-- ===== src/Grid/DatabasePad/Methods.antt =====
-- The methods of `DatabaseRevisionPad` that change the grid, in
-- frontend/rust-lib/flowy-client-sync/src/client_database/database_revision_pad.rs.
use app_flowy.Prelude.{
  ℕ, ◌+◌, ◌/◌, ◌%◌, Bool, ◌&&◌, ◌||◌, Option, none, some, List, [], ◌∷◌, ◌++◌, ltb, if◌then◌else◌,
}
use app_flowy.Prelude.Search.{any}
use app_flowy.FlowyErrors.{FlowyResult, done, failed, and_then, internal_error, panicked}
use app_flowy.OtStr.{Text}
use app_flowy.Attributes.{EmptyAttributes, empty_operation_attributes}
use app_flowy.Attributes.HashMap.{text_eq}
use app_flowy.Delta.Ops.{DeltaOperations}
use app_flowy.Delta.Builder
use app_flowy.Delta.Builder.{build, new_builder}
use app_flowy.Infra.{move_vec_element}
use app_flowy.Revision.{Revision}
use app_flowy.Pad.{
  Libraries, Pad, Changeset, Edited, modify, from_operations, make_operations_from_revisions, moved,
  edit_first,
}
use app_flowy.Grid.{
  IndexMap, FieldTypeRevision, FieldRevision, GridBlockMetaRevision, GridBlockMetaRevisionChangeset,
  DatabaseRevision,
}
use app_flowy.Grid.BlockPad.{or_old, is_given, changed_if}
use app_flowy.Grid.DatabasePad.{
  is_field, last, on_fields, on_blocks, create_in, delete_in, duplicate_in, replace_in,
}

-- `to_string` of a `u8`.
unfoldable pub to_string : FieldTypeRevision → Text
to_string n =
    if ltb n 10
    then (48 + n) ∷ []
    else if ltb n 100
    then (48 + n / 10) ∷ (48 + n % 10) ∷ []
    else (48 + n / 100) ∷ (48 + n / 10 % 10) ∷ (48 + n % 10) ∷ []

abbrev pub is_block : Text → GridBlockMetaRevision → Bool
is_block id block = text_eq block.block_id id

-- The blocks but for the new one, whose place must not lie before the last.
unfoldable pub create_block_behind :
    GridBlockMetaRevision
    → List GridBlockMetaRevision
    → Option GridBlockMetaRevision
    → Edited (List GridBlockMetaRevision)
create_block_behind block blocks none = (done (some tt), blocks ++ block ∷ [])
create_block_behind block blocks (some last_block) =
    if ltb block.start_row_index last_block.start_row_index
      && ltb block.start_row_index last_block.row_count
    then (failed internal_error, blocks)
    else (done (some tt), blocks ++ block ∷ [])

unfoldable pub create_block_in :
    GridBlockMetaRevision → List GridBlockMetaRevision → Edited (List GridBlockMetaRevision)
unfolding create_block_behind
create_block_in block blocks =
    if any (is_block block.block_id) blocks
    then (done none, blocks)
    else create_block_behind block blocks (last blocks)

unfoldable pub update_block_in :
    GridBlockMetaRevisionChangeset → GridBlockMetaRevision → Edited GridBlockMetaRevision
update_block_in changeset block = (
  done (changed_if (is_given changeset.row_count || is_given changeset.start_row_index)),
  record block {
    row_count = or_old changeset.row_count block.row_count;
    start_row_index = or_old changeset.start_row_index block.start_row_index;
  },
)

module _ {Options : Type 0} (options : IndexMap Text Text Options) where
  unfoldable pub get_type_option_str : FieldTypeRevision → FieldRevision Options → Option Text
  unfolding to_string
  get_type_option_str ty field = options.get (to_string ty) field.type_options

  unfoldable pub insert_type_option_str :
      FieldTypeRevision → Text → FieldRevision Options → FieldRevision Options
  unfolding to_string
  insert_type_option_str ty json field = record field {
    type_options = options.insert (to_string ty) json field.type_options;
  }

  -- The closure of `switch_to_field`, with the default data of the new type, and the transformation of
  -- the data of the old type and of the new.
  unfoldable pub switch_in :
      FieldTypeRevision
      → Text
      → (FieldTypeRevision → Option Text → Text → Text)
      → FieldRevision Options
      → Edited (FieldRevision Options)
  unfolding get_type_option_str insert_type_option_str
  switch_in ty make_default type_option_transform field =
      let old = get_type_option_str field.ty field in
      let new_data : Text = elim (get_type_option_str ty field) [
        | none ↦ make_default
        | some json ↦ json
      ] in
      (
        done (some tt),
        record (insert_type_option_str ty (type_option_transform field.ty old new_data) field) {
          ty = ty;
        },
      )

module _ {Options : Type 0} (libs : Libraries (DatabaseRevision Options)) where
  abbrev pub DatabasePad : Type 0
  DatabasePad = Pad (DatabaseRevision Options)

  abbrev pub Answer : Type 0
  Answer = FlowyResult (Option Changeset) × DatabasePad

  unfoldable pub modify_field :
      Text → (FieldRevision Options → Edited (FieldRevision Options)) → DatabasePad → Answer
  unfolding on_fields
  modify_field id f pad =
      modify libs
        (on_fields λ fields.
          edit_first (done none) (λ (field : FieldRevision Options). is_field id field) f fields)
        pad

  unfoldable pub modify_block :
      Text → (GridBlockMetaRevision → Edited GridBlockMetaRevision) → DatabasePad → Answer
  unfolding on_blocks
  modify_block id f pad =
      modify libs (on_blocks λ blocks. edit_first (done none) (is_block id) f blocks) pad

  unfoldable pub create_field_rev : FieldRevision Options → Option Text → DatabasePad → Answer
  unfolding on_fields create_in
  create_field_rev field start_field_id pad =
      modify libs (on_fields (create_in field start_field_id)) pad

  unfoldable pub delete_field_rev : Text → DatabasePad → Answer
  unfolding on_fields delete_in
  delete_field_rev id pad = modify libs (on_fields (delete_in id)) pad

  unfoldable pub duplicate_field_rev : Text → Text → DatabasePad → Answer
  unfolding on_fields duplicate_in
  duplicate_field_rev id duplicated_id pad =
      modify libs (on_fields (duplicate_in id duplicated_id)) pad

  unfoldable pub replace_field_rev : FieldRevision Options → DatabasePad → Answer
  unfolding on_fields replace_in
  replace_field_rev field pad = modify libs (on_fields (replace_in field)) pad

  unfoldable pub move_field : Text → ℕ → ℕ → DatabasePad → Answer
  unfolding on_fields
  move_field id from to pad =
      modify libs (on_fields λ fields. moved (move_vec_element (is_field id) from to fields)) pad

  unfoldable pub create_block_meta_rev : GridBlockMetaRevision → DatabasePad → Answer
  unfolding on_blocks create_block_in
  create_block_meta_rev block pad = modify libs (on_blocks (create_block_in block)) pad

  unfoldable pub update_block_rev : GridBlockMetaRevisionChangeset → DatabasePad → Answer
  unfolding modify_block update_block_in
  update_block_rev changeset pad = modify_block changeset.block_id (update_block_in changeset) pad

  unfoldable pub switch_to_field :
      IndexMap Text Text Options
      → Text
      → FieldTypeRevision
      → Text
      → (FieldTypeRevision → Option Text → Text → Text)
      → DatabasePad
      → Answer
  unfolding modify_field switch_in
  switch_to_field options id ty make_default type_option_transform pad =
      modify_field id (switch_in options ty make_default type_option_transform) pad

  unfoldable pub make_database_operations :
      DatabaseRevision Options → FlowyResult (DeltaOperations EmptyAttributes)
  make_database_operations grid = elim (libs.to_json grid) [
    | none ↦ failed panicked
    | some json ↦ done (build (Builder.insert json new_builder))
  ]

  unfoldable pub from_revisions :
      (List ℕ → Option (DeltaOperations EmptyAttributes)) → List Revision → FlowyResult DatabasePad
  from_revisions from_bytes rs =
      and_then (make_operations_from_revisions from_bytes rs) λ d. from_operations libs d
