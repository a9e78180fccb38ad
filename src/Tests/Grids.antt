-- ===== src/Tests/Grids.antt =====
-- A block with one row, and a grid with one field, at which the theorems are applied.
use app_flowy.Prelude.{
  ℕ, zero, suc, ◌≡◌, refl, true, false, Bool, Option, none, some, List, [], ◌∷◌, arith,
}
use app_flowy.Prelude.Search.{insert_at}
use app_flowy.FlowyErrors.{failed, out_of_bound}
use app_flowy.OtStr.{Text}
use app_flowy.Attributes.{empty_operation_attributes}
use app_flowy.Attributes.HashMap.{text_eq}
use app_flowy.Delta.Builder
use app_flowy.Delta.Builder.{build, new_builder}
use app_flowy.Pad.{Libraries, Pad}
use app_flowy.Pad.InSync.{HasJson, IsInSync}
use app_flowy.Pad.Remote.{IsRoundTrip, insert-IsDelta}
use app_flowy.Grid.{IndexMap, RowRevision, DatabaseBlockRevision, FieldRevision, DatabaseRevision}
use app_flowy.Grid.BlockPad.{move_row}
use app_flowy.Grid.BlockPad.Moves.{move_row-out_of_bound}
use app_flowy.Grid.DatabasePad.Ids.{count_id}
use app_flowy.Grid.DatabasePad.Runs.{
  DatabaseCall, create_field_rev, duplicate_field_rev, HasDistinctIds, run, run-HasDistinctIds,
}
use app_flowy.Tests.Pads.{replacing, replacing-IsDiff, cons-ne-nil}

-- The row without cells, and the only block with a JSON.
abbrev Row : Type 0
Row = RowRevision (Unit {0})

abbrev row : Row
row = record { id = []; block_id = []; cells = tt; height = 0; visibility = false }

abbrev block : DatabaseBlockRevision (Unit {0})
block = record { block_id = []; rows = row ∷ [] }

abbrev row_to_json : Text → Text → ℕ → Bool → Option Text
row_to_json [] [] zero false = some (49 ∷ [])
row_to_json id block_id height visibility = none

abbrev block_to_json : Text → List Row → Option Text
block_to_json [] (r ∷ []) = row_to_json r.id r.block_id r.height r.visibility
block_to_json id rows = none

abbrev one_block : Libraries (DatabaseBlockRevision (Unit {0}))
one_block = record {
  to_json = λ d. block_to_json d.block_id d.rows;
  from_json = λ json. some block;
  diff = replacing;
  md5 = λ d. [];
}

one_block-IsRoundTrip : IsRoundTrip one_block
one_block-IsRoundTrip = record { from_json-to_json = λ d json e. by_rows d.block_id d.rows json e }
  where
    by_row :
        (id block_id : Text) (height : ℕ) (visibility : Bool) (json : Text)
        → row_to_json id block_id height visibility ≡ some json
        → some block
          ≡ some (record {
            block_id = [];
            rows =
                record {
                  id = id;
                  block_id = block_id;
                  cells = tt;
                  height = height;
                  visibility = visibility;
                }
                ∷ [];
          })
    by_row [] [] zero false json e = refl
    by_row [] [] zero true json e = cc
    by_row [] [] (suc n) v json e = cc
    by_row [] (c ∷ b) n v json e = cc
    by_row (c ∷ id) b n v json e = cc

    by_rows :
        (id : Text) (rows : List Row) (json : Text)
        → block_to_json id rows ≡ some json
        → some block ≡ some (record { block_id = id; rows = rows })
    by_rows [] (r ∷ []) json e = by_row r.id r.block_id r.height r.visibility json e
    by_rows [] [] json e = cc
    by_rows [] (r ∷ s ∷ rows) json e = cc
    by_rows (c ∷ id) rows json e = cc

abbrev pad : Pad (DatabaseBlockRevision (Unit {0}))
pad = record { revision = block; operations = build (Builder.insert (49 ∷ []) new_builder) }

abbrev pad-IsInSync : IsInSync one_block pad
pad-IsInSync = record {
  has_json = record {
    json = 49 ∷ [];
    serialized = refl;
    plain = record { bmp = (omega arith, tt); short = omega arith };
    not_empty = cons-ne-nil 49 [];
  };
  delta = insert-IsDelta (49 ∷ []) (record { bmp = (omega arith, tt); short = omega arith });
}

move_row-out_of_bound_example :
    (r : Row) × (rest : List Row) × (row ∷ [] ≡ insert_at 0 r rest)
    × (text_eq r.id [] ≡ true)
    × (move_row one_block [] 0 1 pad
        ≡ (failed out_of_bound, record pad { revision = record block { rows = rest } }))
    × (¬ IsInSync one_block (move_row one_block [] 0 1 pad).1)
unfolding text_eq
move_row-out_of_bound_example =
    move_row-out_of_bound one_block pad [] 0 1 one_block-IsRoundTrip pad-IsInSync refl (omega arith)

-- Type options that are forgotten.
abbrev no_options : IndexMap Text Text (Unit {0})
no_options = record { empty = tt; get = λ id m. none; insert = λ id json m. tt }

abbrev field : FieldRevision (Unit {0})
field = record {
  id = 97 ∷ [];
  name = [];
  desc = [];
  ty = 0;
  frozen = false;
  visibility = true;
  width = 0;
  type_options = tt;
  is_primary = true;
}

abbrev plain : Libraries (DatabaseRevision (Unit {0}))
plain = record {
  to_json = λ d. some (48 ∷ []);
  from_json = λ json. none;
  diff = replacing;
  md5 = λ d. [];
}

abbrev plain-HasJson : (d : DatabaseRevision (Unit {0})) → HasJson plain d
plain-HasJson d = record {
  json = 48 ∷ [];
  serialized = refl;
  plain = record { bmp = (omega arith, tt); short = omega arith };
  not_empty = cons-ne-nil 48 [];
}

abbrev grid_pad : Pad (DatabaseRevision (Unit {0}))
grid_pad = record {
  revision = record { grid_id = []; fields = field ∷ []; blocks = [] };
  operations = build (Builder.insert (48 ∷ []) new_builder);
}

grid_pad-IsInSync : IsInSync plain grid_pad
grid_pad-IsInSync = record {
  has_json = plain-HasJson grid_pad.revision;
  delta = insert-IsDelta (48 ∷ []) (record { bmp = (omega arith, tt); short = omega arith });
}

field-IsApart : HasDistinctIds grid_pad.revision
unfolding count_id
field-IsApart = record { fields = λ id. ground arith; blocks = λ id. omega arith }

-- The field is duplicated, and another one is created behind it.
abbrev calls : List (DatabaseCall (Unit {0}))
calls =
    duplicate_field_rev (97 ∷ []) (98 ∷ [])
    ∷ create_field_rev (record field { id = 99 ∷ [] }) none
    ∷ []

run-HasDistinctIds_example :
    IsInSync plain (run no_options plain calls grid_pad)
    × HasDistinctIds (run no_options plain calls grid_pad).revision
unfolding text_eq
run-HasDistinctIds_example =
    run-HasDistinctIds no_options plain calls grid_pad replacing-IsDiff grid_pad-IsInSync
      field-IsApart (refl, plain-HasJson _, (tt, plain-HasJson _, tt))
