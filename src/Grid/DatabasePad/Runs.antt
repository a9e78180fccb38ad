-- ===== src/Grid/DatabasePad/Runs.antt =====
-- Any calls of the methods of `DatabaseRevisionPad` that change the grid, one behind the other.
use app_flowy.Prelude.{ℕ, ◌≡◌, false, Option, none, List, [], ◌∷◌}
use app_flowy.Prelude.Search.{any}
use app_flowy.FlowyErrors.{FlowyResult, done}
use app_flowy.OtStr.{Text}
use app_flowy.Pad.{Libraries, Pad, Changeset, Edited, modify}
use app_flowy.Pad.Careful.{Careful, Careful-on_part}
use app_flowy.Pad.Diff.{IsDiff}
use app_flowy.Pad.InSync.{HasJson, IsInSync}
use app_flowy.Pad.Edits.{IsEdit, IsEdit-modify, IsEdit-keeps, IsEdit-IsInSync}
use app_flowy.Grid.{
  IndexMap, FieldTypeRevision, FieldRevision, GridBlockMetaRevision, GridBlockMetaRevisionChangeset,
  DatabaseRevision,
}
use app_flowy.Grid.DatabasePad.{is_field, on_fields, on_blocks}
use app_flowy.Grid.DatabasePad.Methods
use app_flowy.Grid.DatabasePad.Methods.{DatabasePad, is_block, update_block_in, switch_in}
use app_flowy.Grid.DatabasePad.Ids.{IsApart, count_id-any}
use app_flowy.Grid.DatabasePad.Ids.Edits.{edit_first-IsApart, move-IsApart}
use app_flowy.Grid.DatabasePad.Closures.{
  create_in-IsApart, delete_in-IsApart, duplicate_in-IsApart, replace_in-IsApart, switch_in-keeps,
  create_block_in-IsApart, update_block_in-keeps,
}

pub data DatabaseCall (Options : Type 0) : Type 0 where
  create_field_rev : FieldRevision Options → Option Text → DatabaseCall Options
  delete_field_rev : Text → DatabaseCall Options
  duplicate_field_rev : Text → Text → DatabaseCall Options
  switch_to_field :
      Text
      → FieldTypeRevision
      → Text
      → (FieldTypeRevision → Option Text → Text → Text)
      → DatabaseCall Options
  replace_field_rev : FieldRevision Options → DatabaseCall Options
  move_field : Text → ℕ → ℕ → DatabaseCall Options
  create_block_meta_rev : GridBlockMetaRevision → DatabaseCall Options
  update_block_rev : GridBlockMetaRevisionChangeset → DatabaseCall Options

-- No two fields and no two blocks have one id.
pub record HasDistinctIds {Options : Type 0} (d : DatabaseRevision Options) : Type 0 where
  pub fields : IsApart FieldRevision.id d.fields
  pub blocks : IsApart GridBlockMetaRevision.block_id d.blocks

module _ {Options : Type 0} (options : IndexMap Text Text Options)
    (libs : Libraries (DatabaseRevision Options)) where
  unfoldable pub step :
      DatabaseCall Options
      → Pad (DatabaseRevision Options)
      → FlowyResult (Option Changeset) × Pad (DatabaseRevision Options)
  step (create_field_rev field start) = Methods.create_field_rev libs field start
  step (delete_field_rev id) = Methods.delete_field_rev libs id
  step (duplicate_field_rev id duplicated_id) = Methods.duplicate_field_rev libs id duplicated_id
  step (switch_to_field id ty make_default transform) =
      Methods.switch_to_field libs options id ty make_default transform
  step (replace_field_rev field) = Methods.replace_field_rev libs field
  step (move_field id from to) = Methods.move_field libs id from to
  step (create_block_meta_rev block) = Methods.create_block_meta_rev libs block
  step (update_block_rev changeset) = Methods.update_block_rev libs changeset

  unfoldable pub run :
      List (DatabaseCall Options) → Pad (DatabaseRevision Options) → Pad (DatabaseRevision Options)
  unfolding step
  run [] pad = pad
  run (call ∷ calls) pad = run calls (step call pad).1

  -- The id for a duplicate is no field's.
  abbrev pub IsFresh : DatabaseCall Options → Pad (DatabaseRevision Options) → Type 0
  IsFresh (duplicate_field_rev id duplicated_id) pad =
      any (is_field duplicated_id) pad.revision.fields ≡ false
  IsFresh call pad = Unit

  -- The ids of duplicates are fresh, and the grid has a JSON after each call.
  abbrev pub Proceeds : List (DatabaseCall Options) → Pad (DatabaseRevision Options) → Type 0
  Proceeds [] pad = Unit
  Proceeds (call ∷ calls) pad =
      IsFresh call pad × HasJson libs (step call pad).1.revision × Proceeds calls (step call pad).1

  of_fields :
      (f : List (FieldRevision Options) → Edited (List (FieldRevision Options)))
      (pad : Pad (DatabaseRevision Options))
      → (IsApart FieldRevision.id pad.revision.fields
          → Careful (IsApart FieldRevision.id) (f pad.revision.fields) pad.revision.fields)
      → IsEdit libs HasDistinctIds pad (modify libs (on_fields f) pad)
  unfolding on_fields
  of_fields f pad c = IsEdit-modify libs (on_fields f) pad λ h.
      Careful-on_part (λ fields. record pad.revision { fields = fields })
        (λ p. record { fields = p; blocks = h.blocks }) (c h.fields)

  of_blocks :
      (f : List GridBlockMetaRevision → Edited (List GridBlockMetaRevision))
      (pad : Pad (DatabaseRevision Options))
      → (IsApart GridBlockMetaRevision.block_id pad.revision.blocks
          → Careful
              (IsApart GridBlockMetaRevision.block_id)
              (f pad.revision.blocks)
              pad.revision.blocks)
      → IsEdit libs HasDistinctIds pad (modify libs (on_blocks f) pad)
  unfolding on_blocks
  of_blocks f pad c = IsEdit-modify libs (on_blocks f) pad λ h.
      Careful-on_part (λ blocks. record pad.revision { blocks = blocks })
        (λ p. record { fields = h.fields; blocks = p }) (c h.blocks)

  step-IsEdit :
      (call : DatabaseCall Options) (pad : Pad (DatabaseRevision Options))
      → IsFresh call pad
      → IsEdit libs HasDistinctIds pad (step call pad)
  unfolding step Methods.create_field_rev Methods.delete_field_rev Methods.duplicate_field_rev
      Methods.switch_to_field Methods.modify_field Methods.replace_field_rev Methods.move_field
      Methods.create_block_meta_rev Methods.update_block_rev Methods.modify_block
  step-IsEdit (create_field_rev field start) pad _ =
      of_fields _ pad (create_in-IsApart field start pad.revision.fields)
  step-IsEdit (delete_field_rev id) pad _ =
      of_fields _ pad (delete_in-IsApart id pad.revision.fields)
  step-IsEdit (duplicate_field_rev id duplicated_id) pad fresh = of_fields _ pad (
      duplicate_in-IsApart id duplicated_id pad.revision.fields
        (count_id-any FieldRevision.id duplicated_id pad.revision.fields fresh))
  step-IsEdit (switch_to_field id ty make_default transform) pad _ = of_fields _ pad (
      edit_first-IsApart FieldRevision.id (done none) (is_field id)
        (switch_in options ty make_default transform) pad.revision.fields
        (switch_in-keeps options ty make_default transform))
  step-IsEdit (replace_field_rev field) pad _ =
      of_fields _ pad (replace_in-IsApart field pad.revision.fields)
  step-IsEdit (move_field id from to) pad _ =
      of_fields _ pad (move-IsApart FieldRevision.id (is_field id) from to pad.revision.fields)
  step-IsEdit (create_block_meta_rev block) pad _ =
      of_blocks _ pad (create_block_in-IsApart block pad.revision.blocks)
  step-IsEdit (update_block_rev changeset) pad _ = of_blocks _ pad (
      edit_first-IsApart GridBlockMetaRevision.block_id (done none) (is_block changeset.block_id)
        (update_block_in changeset) pad.revision.blocks (update_block_in-keeps changeset))

  -- A pad that is in sync, whose fields have different ids and whose blocks too, and any calls, failed or
  -- not, with fresh ids for duplicates and a JSON of the grid after each: the pad that they leave is in
  -- sync, and its fields have different ids and its blocks too.
  pub run-HasDistinctIds :
      (calls : List (DatabaseCall Options)) (pad : Pad (DatabaseRevision Options))
      → IsDiff libs.diff
      → IsInSync libs pad
      → HasDistinctIds pad.revision
      → Proceeds calls pad
      → IsInSync libs (run calls pad) × HasDistinctIds (run calls pad).revision
  unfolding run
  run-HasDistinctIds [] pad law s h p = (s, h)
  run-HasDistinctIds (call ∷ calls) pad law s h p =
      let e : IsEdit libs HasDistinctIds pad (step call pad) = step-IsEdit call pad p.0 in
      run-HasDistinctIds calls (step call pad).1 law (IsEdit-IsInSync libs pad law e h s p.1)
        (IsEdit-keeps libs pad e h) p.2
