-- ===== src/Delta/Newline.antt =====
-- The end of lines in shared-lib/lib-ot/src/core/delta/iterator.rs and cursor.rs: where an operation has
-- one, the search for it, and `seek` by code units. `none` is a panic or the end of the rounds.
use app_flowy.Prelude.{
  ℕ, zero, suc, ◌+◌, Bool, true, false, ◌&&◌, Option, none, some, [], ◌∷◌, ltb, ◌==◌, is_nil,
  if◌then◌else◌,
}
use app_flowy.OtStr.{Text}
use app_flowy.Attributes.{OperationAttributes}
use app_flowy.Delta.Operation.{DeltaOperation, delete, retain, insert, len, get_data}
use app_flowy.Delta.Ops.{DeltaOperations}
use app_flowy.Delta.Cursor.{
  OperationsCursor, rounds_for, has_next, next_with_len, next_op, next_op_with_len, new_iterator,
}

-- `NEW_LINE`, a text of one character.
abbrev pub new_line : ℕ
new_line = 10

unfoldable pub starts_with_newline : Text → Bool
starts_with_newline [] = false
starts_with_newline (c ∷ s) = c == new_line

unfoldable pub ends_with_newline : Text → Bool
ends_with_newline [] = false
ends_with_newline (c ∷ []) = c == new_line
ends_with_newline (c ∷ d ∷ s) = ends_with_newline (d ∷ s)

unfoldable pub contains_newline : Text → Bool
contains_newline [] = false
contains_newline (c ∷ s) = if c == new_line then true else contains_newline s

unfoldable pub is_newline : Text → Bool
is_newline [] = false
is_newline (c ∷ s) = c == new_line && is_nil s

pub data OpNewline : Type 0 where
  starts ends holds equals not_found : OpNewline

unfoldable pub parse_text : Text → OpNewline
unfolding is_newline starts_with_newline ends_with_newline contains_newline
parse_text s =
    if is_newline s
    then equals
    else if starts_with_newline s
    then starts
    else if ends_with_newline s
    then ends
    else if contains_newline s
    then holds
    else not_found

abbrev pub is_equal : OpNewline → Bool
is_equal equals = true
is_equal _ = false

abbrev pub is_start : OpNewline → Bool
is_start starts = true
is_start equals = true
is_start _ = false

abbrev pub is_end : OpNewline → Bool
is_end ends = true
is_end equals = true
is_end _ = false

abbrev pub is_contain : OpNewline → Bool
is_contain not_found = false
is_contain _ = true

module _ {T : Type 0} where
  unfoldable pub parse : DeltaOperation T → OpNewline
  unfolding parse_text
  parse op = parse_text (get_data op)

module _ {T : Type 0} ⦃attrs : OperationAttributes T⦄ where
  -- `seek::<Utf16CodeUnitMetric>`, whose error is logged.
  unfoldable pub seek : ℕ → OperationsCursor T → Option (OperationsCursor T)
  seek offset c =
      if offset == 0
      then some c
      else if ltb offset c.consume_count
      then some c
      else elim (next_with_len (rounds_for c) (some offset) c) [
        | none ↦ none
        | some (op, c') ↦ some c'
      ]

  unfoldable pub from_offset : DeltaOperations T → ℕ → Option (OperationsCursor T)
  unfolding seek
  from_offset d offset = seek offset (new_iterator d)

  -- The loop of `next_op_with_newline`.
  unfoldable pub find_newline_op :
      ℕ → ℕ → OperationsCursor T → Option (Option (DeltaOperation T × ℕ) × OperationsCursor T)
  unfolding parse
  find_newline_op zero offset c = none
  find_newline_op (suc rounds) offset c = elim (has_next c) [
    | false ↦ some (none, c)
    | true ↦ elim (next_op c) [
      | none ↦ none
      | some (none, c') ↦ find_newline_op rounds offset c'
      | some (some op, c') ↦ elim (is_contain (parse op)) [
        | true ↦ some (some (op, offset), c')
        | false ↦ find_newline_op rounds (offset + len op) c'
      ]
    ]
  ]

  unfoldable pub next_op_with_newline :
      OperationsCursor T → Option (Option (DeltaOperation T × ℕ) × OperationsCursor T)
  unfolding find_newline_op
  next_op_with_newline c = find_newline_op (rounds_for c) 0 c

  -- With the operations before the index and behind it.
  unfoldable pub is_between_lines : Option (DeltaOperation T) → Option (DeltaOperation T) → Bool
  unfolding parse
  is_between_lines none next = true
  is_between_lines (some prev) none = false
  is_between_lines (some prev) (some next) = is_end (parse prev) && is_start (parse next)

  unfoldable pub is_empty_line_at_index : DeltaOperations T → ℕ → Option Bool
  unfolding is_between_lines
  is_empty_line_at_index d index = elim (next_op_with_len index (new_iterator d)) [
    | none ↦ none
    | some (prev, c) ↦ elim (next_op c) [
      | none ↦ none
      | some (next, c') ↦ some (is_between_lines prev next)
    ]
  ]

  -- `AttributesIter::next`
  abbrev pub with_attributes : DeltaOperation T → ℕ × T
  with_attributes (delete n) = (0, attrs.empty)
  with_attributes (retain n a) = (n, attrs.extend attrs.empty a)
  with_attributes (insert s a) = (len (insert s a), attrs.extend attrs.empty a)

  unfoldable pub next_attributes : OperationsCursor T → Option (Option (ℕ × T) × OperationsCursor T)
  next_attributes c = elim (next_op c) [
    | none ↦ none
    | some (none, c') ↦ some (none, c')
    | some (some op, c') ↦ some (some (with_attributes op), c')
  ]
