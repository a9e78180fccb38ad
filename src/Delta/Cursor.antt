-- ===== src/Delta/Cursor.antt =====
-- shared-lib/lib-ot/src/core/delta/cursor.rs and iterator.rs: a cursor over the operations of a
-- delta, which hands them out whole or in pieces of a given length. The loops of `next_with_len`
-- take the rounds that are left; `none` is the end of the rounds.
pub mod Pieces
pub mod Pending
pub mod Taken
pub mod Consume
pub mod Calls
pub mod Collect
use app_flowy.Prelude.{
  ℕ, zero, suc, ◌+◌, ◌-◌, ◌^◌, min, Bool, true, false, ◌&&◌, Option, none, some, List, [], ◌∷◌,
  length, ltb, leb, if◌then◌else◌,
}
use app_flowy.Interval
use app_flowy.Interval.{Interval, interval}
use app_flowy.Attributes.{OperationAttributes}
use app_flowy.Delta.Operation.{DeltaOperation, len, shrink, is_insert, is_retain, is_delete}
use app_flowy.Delta.Ops.{DeltaOperations}

-- `i32::MAX as usize`
abbrev pub max_iv_len : ℕ
max_iv_len = 2 ^ 31 - 1

-- `iter` is what the iterator over `ops` still yields, and `index` the position of its next item.
pub record OperationsCursor (T : Type 0) : Type 0 where
  pub ops : List (DeltaOperation T)
  pub origin_iv : Interval
  pub consume_iv : Interval
  pub consume_count : ℕ
  pub op_offset : ℕ
  pub iter : List (DeltaOperation T)
  pub index : ℕ
  pub next_op : Option (DeltaOperation T)

-- `unwrap_or_else(|| Interval::new(0, 0))`
abbrev pub or_empty_interval : Option Interval → Interval
or_empty_interval none = interval 0 0
or_empty_interval (some iv) = iv

module _ {T : Type 0} where
  -- The loop of `descend` over the operations that are left.
  unfoldable pub descend_loop : List (DeltaOperation T) → OperationsCursor T → OperationsCursor T
  descend_loop [] c = record c { iter = [] }
  descend_loop (op ∷ iter) c =
      let start = c.consume_count in
      let intersect = Interval.intersect (interval start (start + len op)) c.consume_iv in
      let passed = descend_loop iter (record c {
        consume_count = start + len op;
        op_offset = c.index;
        iter = iter;
        index = c.index + 1;
      }) in
      if Interval.is_empty intersect
      then passed
      else record c { op_offset = c.index; iter = iter; index = c.index + 1; next_op = some op }

  unfoldable pub descend : ℕ → OperationsCursor T → OperationsCursor T
  unfolding descend_loop Interval.intersect Interval.is_empty
  descend offset c =
      let c' = record c { consume_iv = interval (c.consume_iv.start + offset) c.consume_iv.end } in
      if leb c'.consume_iv.start c'.consume_count then c' else descend_loop c'.iter c'

  unfoldable pub new_cursor : DeltaOperations T → Interval → OperationsCursor T
  unfolding descend
  new_cursor d iv = descend 0 (record {
    ops = d.ops;
    origin_iv = iv;
    consume_iv = iv;
    consume_count = 0;
    op_offset = 0;
    iter = d.ops;
    index = 0;
    next_op = none;
  })

  -- The first operation that ends behind `count`.
  unfoldable pub scan : ℕ → ℕ → List (DeltaOperation T) → Option (DeltaOperation T)
  scan offset count [] = none
  scan offset count (op ∷ ops) =
      if ltb count (offset + len op) then some op else scan (offset + len op) count ops

  -- The method `next_op`.
  unfoldable pub peek : OperationsCursor T → Option (DeltaOperation T)
  unfolding scan
  peek c = elim c.next_op [ some op ↦ some op | none ↦ scan 0 c.consume_count c.ops ]

  unfoldable pub has_next : OperationsCursor T → Bool
  has_next c = elim (peek c) [ some op ↦ true | none ↦ false ]

  unfoldable pub next_iv_with_len : Option ℕ → OperationsCursor T → Option Interval
  unfolding Interval.intersect Interval.translate_neg
  next_iv_with_len expected_len c = elim (peek c) [
    | none ↦ none
    | some op ↦
        let start = c.consume_count in
        let end = start + elim expected_len [ none ↦ len op | some n ↦ min n (len op) ] in
        some (Interval.translate_neg (Interval.intersect (interval start end) c.consume_iv) start)
  ]

  unfoldable pub next_iv : OperationsCursor T → Interval
  next_iv c = or_empty_interval (next_iv_with_len none c)

  unfoldable pub find_next : OperationsCursor T → Option (DeltaOperation T) × OperationsCursor T
  find_next c = elim c.iter [
    | [] ↦ (none, c)
    | op ∷ iter ↦ (some op, record c { op_offset = c.index; iter = iter; index = c.index + 1 })
  ]

  -- `holder`, or the next operation of the iterator.
  unfoldable pub first_op : OperationsCursor T → Option (DeltaOperation T) × OperationsCursor T
  first_op c = elim c.next_op [ some op ↦ (some op, c) | none ↦ find_next c ]

  -- What is still to be found behind an operation of length `consume_len`, if anything.
  unfoldable pub missing : Option ℕ → ℕ → OperationsCursor T → Option ℕ
  missing none consume_len c = none
  missing (some end) consume_len c =
      if ltb consume_len end && has_next c then some (end - consume_len) else none

module _ {T : Type 0} ⦃attrs : OperationAttributes T⦄ where
  -- The cursor after the part `iv` of `op` was handed out.
  unfoldable pub consume : DeltaOperation T → Interval → OperationsCursor T → OperationsCursor T
  unfolding shrink Interval.suffix Interval.is_empty
  consume op iv c =
      let suffix = Interval.suffix (interval 0 (len op)) iv in
      let count = c.consume_count + iv.end in
      record c {
        next_op = if Interval.is_empty suffix then none else shrink op suffix;
        consume_count = count;
        consume_iv = interval count c.consume_iv.end;
      }

  -- The `while` of `next_with_len`: the operation found, the length consumed, and the cursor.
  unfoldable pub find_loop :
      ℕ
      → Option ℕ
      → Option (DeltaOperation T)
      → ℕ
      → OperationsCursor T
      → Option (Option (DeltaOperation T) × ℕ × OperationsCursor T)
  find_loop rounds expected_len none consume_len c = some (none, consume_len, c)
  find_loop zero expected_len (some op) consume_len c = none
  find_loop (suc rounds) expected_len (some op) consume_len c =
      let iv = or_empty_interval (next_iv_with_len expected_len c) in
      let c' = consume op iv c in
      let consumed = consume_len + iv.end in
      let later = find_next c' in
      elim (Interval.is_empty iv) [
        | true ↦ some (none, consume_len, record c { next_op = some op })
        | false ↦ elim (shrink op iv) [
          | some found ↦ some (some found, consumed, c')
          | none ↦ find_loop rounds expected_len later.0 consumed later.1
        ]
      ]

  unfoldable pub next_with_len :
      ℕ → Option ℕ → OperationsCursor T → Option (Option (DeltaOperation T) × OperationsCursor T)
  next_with_len zero expected_len c = none
  next_with_len (suc rounds) expected_len c =
      elim (find_loop (suc rounds) expected_len (first_op c).0 0 (first_op c).1) [
        | none ↦ none
        | some (none, consume_len, c') ↦ some (none, c')
        | some (some found, consume_len, c') ↦ elim (missing expected_len consume_len c') [
          | none ↦ some (some found, c')
          | some rest ↦ next_with_len rounds (some rest) c'
        ]
      ]

  -- Rounds for one call: each takes an operation off the iterator, but for the one that is cached
  -- and the last test.
  abbrev pub rounds_for : OperationsCursor T → ℕ
  rounds_for c = suc (suc (length c.iter))

  -- The methods of `OperationIterator`.
  unfoldable pub next_op :
      OperationsCursor T → Option (Option (DeltaOperation T) × OperationsCursor T)
  next_op c = next_with_len (rounds_for c) none c

  unfoldable pub next_op_with_len :
      ℕ → OperationsCursor T → Option (Option (DeltaOperation T) × OperationsCursor T)
  next_op_with_len n c = next_with_len (rounds_for c) (some n) c

module _ {T : Type 0} where
  unfoldable pub new_iterator : DeltaOperations T → OperationsCursor T
  unfolding new_cursor
  new_iterator d = new_cursor d (interval 0 max_iv_len)

  unfoldable pub next_op_len : OperationsCursor T → Option ℕ
  next_op_len c =
      let iv = next_iv c in if Interval.is_empty iv then none else some (Interval.size iv)

  unfoldable pub is_next_insert : OperationsCursor T → Bool
  is_next_insert c = elim (peek c) [ none ↦ false | some op ↦ is_insert op ]

  unfoldable pub is_next_retain : OperationsCursor T → Bool
  is_next_retain c = elim (peek c) [ none ↦ false | some op ↦ is_retain op ]

  unfoldable pub is_next_delete : OperationsCursor T → Bool
  is_next_delete c = elim (peek c) [ none ↦ false | some op ↦ is_delete op ]

module _ {T : Type 0} ⦃attrs : OperationAttributes T⦄ where
  -- The method `ops`: `collect` calls `next_op` until it returns `none`.
  unfoldable pub collect_ops : ℕ → OperationsCursor T → Option (List (DeltaOperation T))
  collect_ops zero c = none
  collect_ops (suc rounds) c = elim (next_op c) [
    | none ↦ none
    | some (none, c') ↦ some []
    | some (some op, c') ↦ elim (collect_ops rounds c') [ none ↦ none | some ops ↦ some (op ∷ ops) ]
  ]

  unfoldable pub ops : OperationsCursor T → Option (List (DeltaOperation T))
  ops c = collect_ops (suc (length c.ops)) c
