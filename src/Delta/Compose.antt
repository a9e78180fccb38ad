-- ===== src/Delta/Compose.antt =====
-- `compose` of shared-lib/lib-ot/src/core/delta/ops.rs: one delta for two that follow each other. The
-- loop has a round for each operation of the two deltas and the last test; `none` is the end of the
-- rounds or the `unwrap` of an operation that is not there.
pub mod Composition
pub mod Joined
pub mod Rounds
pub mod Next
pub mod Advance
pub mod Content
pub mod Solid
use app_flowy.Prelude.{ℕ, zero, suc, ◌+◌, min, ◌||◌, Option, none, some, length, if◌then◌else◌}
use app_flowy.Errors.{Result, ok, err, ◌>>=◌}
use app_flowy.Attributes.{OperationAttributes}
use app_flowy.Delta.Operation.{DeltaOperation, delete, retain, insert}
use app_flowy.Delta.Ops.{DeltaOperations, new, add}
use app_flowy.Delta.Cursor.{
  OperationsCursor, new_iterator, has_next, is_next_insert, is_next_delete, next_op,
  next_op_with_len, next_op_len, max_iv_len,
}

abbrev pub or_max : Option ℕ → ℕ
or_max none = max_iv_len
or_max (some n) = n

-- The variables of the loop.
pub record Composing (T : Type 0) : Type 0 where
  pub iter : OperationsCursor T
  pub other_iter : OperationsCursor T
  pub new_delta : DeltaOperations T

pub data Step (T : Type 0) : Type 0 where
  finished : DeltaOperations T → Step T
  running : Composing T → Step T

module _ {T : Type 0} ⦃attrs : OperationAttributes T⦄ where
  -- `unwrap_or_else(|| DeltaOperation::retain(length))`
  abbrev pub or_retain : ℕ → Option (DeltaOperation T) → DeltaOperation T
  or_retain n none = retain n attrs.empty
  or_retain n (some op) = op

  -- The `match` on the two operations of one length.
  unfoldable pub compose_ops :
      DeltaOperation T → DeltaOperation T → DeltaOperations T → Result (DeltaOperations T)
  compose_ops (retain n a) (retain m b) new_delta =
      attrs.compose a b >>= λ composed_attrs. ok (add (retain n composed_attrs) new_delta)
  compose_ops (insert s a) (retain m b) new_delta = attrs.compose a b >>= λ composed_attrs.
      ok (add (insert s (attrs.remove composed_attrs)) new_delta)
  compose_ops (retain n a) (delete m) new_delta = ok (add (delete m) new_delta)
  compose_ops op other_op new_delta = ok new_delta

  -- The round on the next `n` units of both.
  unfoldable pub compose_pair :
      ℕ
      → Option (Option (DeltaOperation T) × OperationsCursor T)
      → Option (Option (DeltaOperation T) × OperationsCursor T)
      → DeltaOperations T
      → Option (Result (Step T))
  compose_pair n (some (op, c)) (some (other_op, c')) new_delta = some (
      compose_ops (or_retain n op) (or_retain n other_op) new_delta >>= λ d.
      ok (running (record { iter = c; other_iter = c'; new_delta = d })))
  compose_pair n none taken new_delta = none
  compose_pair n (some x) none new_delta = none

  -- One round of the `while`.
  unfoldable pub compose_step : Composing T → Option (Result (Step T))
  compose_step s =
      let n = min (or_max (next_op_len s.iter)) (or_max (next_op_len s.other_iter)) in
      if has_next s.iter || has_next s.other_iter
      then if is_next_insert s.other_iter
        then elim (next_op s.other_iter) [
          | none ↦ none
          | some (none, c) ↦ none
          | some (some op, c) ↦
              some (ok (running (record s { other_iter = c; new_delta = add op s.new_delta })))
        ]
        else if is_next_delete s.iter
        then elim (next_op s.iter) [
          | none ↦ none
          | some (none, c) ↦ none
          | some (some op, c) ↦
              some (ok (running (record s { iter = c; new_delta = add op s.new_delta })))
        ]
        else compose_pair n (next_op_with_len n s.iter) (next_op_with_len n s.other_iter)
            s.new_delta
      else some (ok (finished s.new_delta))

  unfoldable pub compose_loop : ℕ → Composing T → Option (Result (DeltaOperations T))
  compose_loop zero s = none
  compose_loop (suc rounds) s = elim (compose_step s) [
    | none ↦ none
    | some (err e) ↦ some (err e)
    | some (ok (finished d)) ↦ some (ok d)
    | some (ok (running s')) ↦ compose_loop rounds s'
  ]

  unfoldable pub compose :
      DeltaOperations T → DeltaOperations T → Option (Result (DeltaOperations T))
  compose a b =
      compose_loop (length a.ops + length b.ops + 1)
        (record { iter = new_iterator a; other_iter = new_iterator b; new_delta = new })
