-- ===== src/Delta/Cursor/Collect.antt =====
-- The method `ops` of the iterator: the operations of a delta, one by one.
use app_flowy.Prelude.{ℕ, zero, suc, ◌≤◌, ◌<◌, ◌≡◌, refl, some, List, [], ◌∷◌, length, All, arith}
use app_flowy.Attributes.{OperationAttributes}
use app_flowy.Delta.Operation.{DeltaOperation}
use app_flowy.Delta.Ops.{DeltaOperations}
use app_flowy.Delta.Cursor.{OperationsCursor, max_iv_len, new_iterator, collect_ops}
use app_flowy.Delta.Cursor.Pieces.{IsSolid}
use app_flowy.Delta.Cursor.Pending.{Pending, total_len, new_iterator-Pending}
use app_flowy.Delta.Cursor.Calls.{next_op-whole, next_op-exhausted}

module _ {T : Type 0} ⦃attrs : OperationAttributes T⦄ where
  collect_ops-Pending :
      (rounds : ℕ) (pending : List (DeltaOperation T)) (c : OperationsCursor T)
      → Pending c pending
      → length pending < rounds
      → collect_ops rounds c ≡ some pending
  unfolding collect_ops
  collect_ops-Pending zero pending c r l = absurd (omega arith)
  collect_ops-Pending (suc rounds) [] c r l = rw (collect_ops, next_op-exhausted c r) refl
  collect_ops-Pending (suc rounds) (op ∷ pending) c r l =
      let (c', e, r') = next_op-whole c op pending r in
      rw (collect_ops, e, collect_ops-Pending rounds pending c' r' (omega arith)) refl

  -- For a delta of solid operations that reach at most 2 ^ 31 - 1 units far, the iterator hands out
  -- the operations of the delta, each whole and in order, and then ends.
  pub ops-new_iterator :
      (d : DeltaOperations T)
      → All IsSolid d.ops
      → total_len d.ops ≤ max_iv_len
      → app_flowy.Delta.Cursor.ops (new_iterator d) ≡ some d.ops
  unfolding app_flowy.Delta.Cursor.ops new_iterator
  ops-new_iterator d s b =
      collect_ops-Pending (suc (length d.ops)) d.ops (new_iterator d) (new_iterator-Pending d s b)
        (omega arith)
