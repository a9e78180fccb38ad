-- ===== src/Grid.antt =====
-- shared-lib/grid-model/src: the rows of a block of a grid, and the fields and blocks of the grid. The
-- ordered maps below them are another library's, so their types and methods are parameters. An `i32`
-- is only stored and compared, so it is the number by which it is above the least one.
pub mod BlockPad
pub mod DatabasePad
use app_flowy.Prelude.{ℕ, Bool, Option, List, ◌∷◌}
use app_flowy.OtStr.{Text}

-- The methods of `indexmap::IndexMap` that are called.
pub record IndexMap (K V M : Type 0) : Type 0 where
  pub empty : M
  pub get : K → M → Option V
  pub insert : K → V → M → M

pub record CellRevision : Type 0 where
  pub type_cell_data : Text

pub record RowRevision (Cells : Type 0) : Type 0 where
  pub id : Text
  pub block_id : Text
  pub cells : Cells
  pub height : ℕ
  pub visibility : Bool

pub record DatabaseBlockRevision (Cells : Type 0) : Type 0 where
  pub block_id : Text
  pub rows : List (RowRevision Cells)

-- The cells in the order in which the hash map yields them.
pub record RowChangeset : Type 0 where
  pub row_id : Text
  pub height : Option ℕ
  pub visibility : Option Bool
  pub cell_by_field_id : List (Text × CellRevision)

-- A `u8`.
abbrev pub FieldTypeRevision : Type 0
FieldTypeRevision = ℕ

pub record FieldRevision (Options : Type 0) : Type 0 where
  pub id : Text
  pub name : Text
  pub desc : Text
  pub ty : FieldTypeRevision
  pub frozen : Bool
  pub visibility : Bool
  pub width : ℕ
  pub type_options : Options
  pub is_primary : Bool

pub record GridBlockMetaRevision : Type 0 where
  pub block_id : Text
  pub start_row_index : ℕ
  pub row_count : ℕ

pub record GridBlockMetaRevisionChangeset : Type 0 where
  pub block_id : Text
  pub start_row_index : Option ℕ
  pub row_count : Option ℕ

pub record DatabaseRevision (Options : Type 0) : Type 0 where
  pub grid_id : Text
  pub fields : List (FieldRevision Options)
  pub blocks : List GridBlockMetaRevision
