-- ===== src/Grid/BlockPad.antt =====
-- `GridBlockRevisionPad` of
-- frontend/rust-lib/flowy-client-sync/src/client_database/block_revision_pad.rs: the rows of a block. The
-- assertion of `move_row` on its argument `from` is one of debug builds, and is left out.
pub mod Moves
use app_flowy.Prelude.{
  ℕ, suc, ◌+◌, ◌%◌, ◌^◌, Bool, true, false, not, ◌&&◌, ◌||◌, Option, none, some, List, [], ◌∷◌,
  ◌++◌, is_nil, length, ltb, if◌then◌else◌,
}
use app_flowy.Prelude.Search.{any, position, retain, remove, insert_at}
use app_flowy.FlowyErrors.{FlowyResult, done, failed, and_then, out_of_bound, panicked}
use app_flowy.OtStr.{Text}
use app_flowy.Attributes.{EmptyAttributes, empty_operation_attributes}
use app_flowy.Attributes.HashMap.{text_eq}
use app_flowy.Delta.Ops.{DeltaOperations}
use app_flowy.Delta.Builder
use app_flowy.Delta.Builder.{build, new_builder}
use app_flowy.Revision.{Revision}
use app_flowy.Pad.{
  Libraries, Pad, Changeset, Edited, modify, from_operations, make_operations_from_revisions,
  on_part, edit_first,
}
use app_flowy.Grid.{IndexMap, CellRevision, RowRevision, DatabaseBlockRevision, RowChangeset}

abbrev pub or_old : {A : Type 0} → Option A → A → A
or_old none old = old
or_old (some new) old = new

abbrev pub is_given : {A : Type 0} → Option A → Bool
is_given none = false
is_given (some a) = true

-- `is_changed`
abbrev pub changed_if : Bool → Option (Unit {0})
changed_if false = none
changed_if true = some tt

module _ {Cells : Type 0} where
  abbrev pub has_id : Text → RowRevision Cells → Bool
  has_id id row = text_eq row.id id

  -- Behind the row of the id, if it is there, and else behind all.
  unfoldable pub place_row :
      RowRevision Cells → Option Text → List (RowRevision Cells) → List (RowRevision Cells)
  place_row row none rows = rows ++ row ∷ []
  place_row row (some start_row_id) rows =
      if is_nil start_row_id then rows ++ row ∷ [] else elim (position (has_id start_row_id) rows) [
        | none ↦ rows ++ row ∷ []
        | some index ↦ insert_at (index + 1) row rows
      ]

  -- The row that was taken out, put in: it is lost where `to` is behind the others.
  unfoldable pub put_row :
      ℕ
      → List (RowRevision Cells)
      → Option (RowRevision Cells × List (RowRevision Cells))
      → Edited (List (RowRevision Cells))
  put_row to rows none = (failed panicked, rows)
  put_row to rows (some (row, rest)) =
      if ltb (length rest) to
      then (failed out_of_bound, rest)
      else (done (some tt), insert_at to row rest)

  unfoldable pub move_in : Text → ℕ → List (RowRevision Cells) → Edited (List (RowRevision Cells))
  unfolding put_row
  move_in id to rows = elim (position (has_id id) rows) [
    | none ↦ (done none, rows)
    | some index ↦ put_row to rows (remove index rows)
  ]

  unfoldable pub on_rows :
      (List (RowRevision Cells) → Edited (List (RowRevision Cells)))
      → DatabaseBlockRevision Cells
      → Edited (DatabaseBlockRevision Cells)
  on_rows f d = on_part (λ rows. record d { rows = rows }) (f d.rows)

  -- The rows with the ids of `supply`, which are random, in another block.
  unfoldable pub duplicate_rows :
      (ℕ → Text) → ℕ → Text → List (RowRevision Cells) → List (RowRevision Cells)
  duplicate_rows supply i block_id [] = []
  duplicate_rows supply i block_id (row ∷ rows) =
      record row { id = supply i; block_id = block_id }
      ∷ duplicate_rows supply (suc i) block_id rows

  unfoldable pub duplicate_data :
      (ℕ → Text) → Text → Pad (DatabaseBlockRevision Cells) → DatabaseBlockRevision Cells
  unfolding duplicate_rows
  duplicate_data supply block_id pad = record {
    block_id = block_id;
    rows = duplicate_rows supply 0 block_id pad.revision.rows;
  }

  -- `enumerate`, from a number on.
  unfoldable pub row_from : ℕ → Text → List (RowRevision Cells) → Option (ℕ × RowRevision Cells)
  row_from index id [] = none
  row_from index id (row ∷ rows) =
      if has_id id row then some (index, row) else row_from (suc index) id rows

  unfoldable pub get_row_rev :
      Text → Pad (DatabaseBlockRevision Cells) → Option (ℕ × RowRevision Cells)
  unfolding row_from
  get_row_rev id pad = row_from 0 id pad.revision.rows

  -- What the hash map of the rows has for an id: the last row with it.
  unfoldable pub row_map : Text → List (RowRevision Cells) → Option (RowRevision Cells)
  row_map id [] = none
  row_map id (row ∷ rows) = elim (row_map id rows) [
    | some later ↦ some later
    | none ↦ if has_id id row then some row else none
  ]

  unfoldable pub rows_of : List Text → List (RowRevision Cells) → List (RowRevision Cells)
  unfolding row_map
  rows_of [] rows = []
  rows_of (id ∷ ids) rows = elim (row_map id rows) [
    | none ↦ rows_of ids rows
    | some row ↦ row ∷ rows_of ids rows
  ]

  unfoldable pub get_row_revs :
      Option (List Text) → Pad (DatabaseBlockRevision Cells) → List (RowRevision Cells)
  unfolding rows_of
  get_row_revs none pad = pad.revision.rows
  get_row_revs (some row_ids) pad = rows_of row_ids pad.revision.rows

  -- `as i32`
  unfoldable pub number_of_rows : Pad (DatabaseBlockRevision Cells) → ℕ
  number_of_rows pad = (length pad.revision.rows + 2 ^ 31) % 2 ^ 32

  unfoldable pub index_of_row : Text → Pad (DatabaseBlockRevision Cells) → Option ℕ
  index_of_row id pad = position (has_id id) pad.revision.rows

module _ {Cells : Type 0} (cells : IndexMap Text CellRevision Cells) where
  unfoldable pub cells_of : Text → List (RowRevision Cells) → List CellRevision
  cells_of field_id [] = []
  cells_of field_id (row ∷ rows) = elim (cells.get field_id row.cells) [
    | none ↦ cells_of field_id rows
    | some cell ↦ cell ∷ cells_of field_id rows
  ]

  unfoldable pub get_cell_revs :
      Text → Option (List Text) → Pad (DatabaseBlockRevision Cells) → List CellRevision
  unfolding cells_of
  get_cell_revs field_id row_ids pad = cells_of field_id (get_row_revs row_ids pad)

  unfoldable pub insert_cells : List (Text × CellRevision) → Cells → Cells
  insert_cells [] row = row
  insert_cells ((field_id, cell) ∷ more) row = insert_cells more (cells.insert field_id cell row)

  -- The closure of `update_row`.
  unfoldable pub update_in : RowChangeset → RowRevision Cells → Edited (RowRevision Cells)
  unfolding insert_cells
  update_in changeset row = (
    done (
        changed_if (
          is_given changeset.height
          || is_given changeset.visibility
          || not (is_nil changeset.cell_by_field_id))),
    record row {
      height = or_old changeset.height row.height;
      visibility = or_old changeset.visibility row.visibility;
      cells = insert_cells changeset.cell_by_field_id row.cells;
    },
  )

module _ {Cells : Type 0} (libs : Libraries (DatabaseBlockRevision Cells)) where
  unfoldable pub add_row_rev :
      RowRevision Cells
      → Option Text
      → Pad (DatabaseBlockRevision Cells)
      → FlowyResult (Option Changeset) × Pad (DatabaseBlockRevision Cells)
  unfolding on_rows place_row
  add_row_rev row start_row_id pad =
      modify libs (on_rows λ rows. (done (some tt), place_row row start_row_id rows)) pad

  unfoldable pub delete_rows :
      List Text
      → Pad (DatabaseBlockRevision Cells)
      → FlowyResult (Option Changeset) × Pad (DatabaseBlockRevision Cells)
  unfolding on_rows
  delete_rows row_ids pad =
      modify libs
        (on_rows λ rows.
          (done (some tt), retain (λ row. not (any (λ id. text_eq id row.id) row_ids)) rows))
        pad

  unfoldable pub move_row :
      Text
      → ℕ
      → ℕ
      → Pad (DatabaseBlockRevision Cells)
      → FlowyResult (Option Changeset) × Pad (DatabaseBlockRevision Cells)
  unfolding on_rows move_in
  move_row id from to pad = modify libs (on_rows (move_in id to)) pad

  unfoldable pub make_database_block_operations :
      DatabaseBlockRevision Cells → FlowyResult (DeltaOperations EmptyAttributes)
  make_database_block_operations block = elim (libs.to_json block) [
    | none ↦ failed panicked
    | some json ↦ done (build (Builder.insert json new_builder))
  ]

  unfoldable pub from_revisions :
      (List ℕ → Option (DeltaOperations EmptyAttributes))
      → List Revision
      → FlowyResult (Pad (DatabaseBlockRevision Cells))
  from_revisions from_bytes rs =
      and_then (make_operations_from_revisions from_bytes rs) λ d. from_operations libs d

  unfoldable pub update_row :
      IndexMap Text CellRevision Cells
      → RowChangeset
      → Pad (DatabaseBlockRevision Cells)
      → FlowyResult (Option Changeset) × Pad (DatabaseBlockRevision Cells)
  unfolding on_rows update_in
  update_row cells changeset pad =
      modify libs
        (on_rows λ rows.
          edit_first (done none) (λ (row : RowRevision Cells). text_eq changeset.row_id row.id)
            (update_in cells changeset) rows)
        pad
