-- ===== src/Tests/Documents.antt =====
-- A short document and its edits, at which the theorems are applied.
use app_flowy.Prelude.{none, inl, arith, ◌≡◌, refl, some, [], ◌∷◌}
use app_flowy.Interval.{interval}
use app_flowy.OtStr.{utf8, utf8_char}
use app_flowy.Attributes.{EmptyAttributes, empty_attributes, empty_operation_attributes}
use app_flowy.Delta.Operation.{insert}
use app_flowy.Delta.Ops.{DeltaOperations}
use app_flowy.ClientDocument.{from_operations}
use app_flowy.ClientDocument.View.{ViewExtensions}
use app_flowy.ClientDocument.Bounds.{HasBound}
use app_flowy.ClientDocument.Runs.{
  insert_call, delete_call, undo_call, redo_call, run, run-HasBound,
}
use app_flowy.ClientDocument.Extensions.{inline_scope, line_break, line_break-none}
use app_flowy.Delta.Newline.{contains_newline}

abbrev plain : EmptyAttributes
plain = empty_attributes

-- The text in front, and nothing for the other edits.
abbrev view : ViewExtensions EmptyAttributes (Unit {0})
view = record {
  insert_exts =
      (λ d n text index. some (record {
        ops = insert text plain ∷ d.ops;
        utf16_base_len = d.utf16_base_len;
        utf16_target_len = d.utf16_target_len;
      }))
      ∷ [];
  format_exts = [];
  delete_exts = [];
}

abbrev nothing : DeltaOperations EmptyAttributes
nothing = record { ops = []; utf16_base_len = 0; utf16_target_len = 0 }

run-HasBound_example : HasBound (
    run
      (insert_call 0 (97 ∷ []) 1000
        ∷ insert_call 0 (98 ∷ []) 2000
        ∷ undo_call
        ∷ redo_call
        ∷ delete_call (interval 0 1) 2100
        ∷ [])
      (from_operations view nothing))
run-HasBound_example = run-HasBound view nothing (
    insert_call 0 (97 ∷ []) 1000
    ∷ insert_call 0 (98 ∷ []) 2000
    ∷ undo_call
    ∷ redo_call
    ∷ delete_call (interval 0 1) 2100
    ∷ [])

-- "ab" and "c", each with its end, and "d" behind them.
line_break-none_example :
    line_break (insert (97 ∷ 98 ∷ 10 ∷ 99 ∷ 10 ∷ 100 ∷ []) plain) inline_scope plain ≡ none
unfolding contains_newline utf8 utf8_char
line_break-none_example =
    line_break-none inline_scope plain plain (97 ∷ 98 ∷ []) (99 ∷ []) (100 ∷ []) (inl refl) refl
      refl (omega arith)
