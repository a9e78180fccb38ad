-- ===== src/Delta/Compose/Rounds.antt =====
-- One round of the loop of `compose`, by what the two cursors still hand out.

use app_flowy.Prelude.{
  ℕ, suc, ◌≤◌, ◌<◌, ◌≡◌, refl, min, true, false, ◌||◌, Option, some, List, ◌∷◌, length,
  compare-cases, less, equal, greater, arith,
}
use app_flowy.Errors.{ok}
use app_flowy.Attributes.{OperationAttributes}
use app_flowy.Delta.Operation.{DeltaOperation, delete, retain, insert, len, is_insert, is_delete}
use app_flowy.Delta.Ops.{DeltaOperations, add}
use app_flowy.Delta.Meaning.{SameEffect, SameEffect-refl}
use app_flowy.Delta.Cursor.{
  OperationsCursor, has_next, is_next_insert, is_next_delete, next_op, next_op_with_len,
  next_op_len,
}
use app_flowy.Delta.Cursor.Pieces.{front, back, pieces-SameEffect, front_all}
use app_flowy.Delta.Cursor.Pending.{Pending}
use app_flowy.Delta.Cursor.Calls.{next_op_with_len-front}
use app_flowy.Delta.Compose.{
  Composing, running, or_max, or_retain, compose_ops, compose_pair, compose_step,
}

module _ {T : Type 0} ⦃attrs : OperationAttributes T⦄ where
  -- `k` units are taken off the front of a list by a cursor.
  pub record Piece (op : DeltaOperation T) (ops : List (DeltaOperation T)) (k : ℕ)
      (c : OperationsCursor T) : Type 0 where
    pub after : OperationsCursor T
    pub left : List (DeltaOperation T)
    pub returns : next_op_with_len k c ≡ some (some (front k op), after)
    pub pending : Pending after left
    pub same : SameEffect (op ∷ ops) (front k op ∷ left)
    pub at_most : length left ≤ suc (length ops)
    pub whole : k ≡ len op → length left ≡ length ops

  pub take-Piece :
      (op : DeltaOperation T) (ops : List (DeltaOperation T)) (k : ℕ) (c : OperationsCursor T)
      → Pending c (op ∷ ops)
      → 0 < k
      → k ≤ len op
      → Piece op ops k c
  take-Piece op ops k c r p l =
      let (after, returns, inside, whole) = next_op_with_len-front c op ops r k p l in
      elim (compare-cases k (len op)) [
        | less lt _ ↦ record {
          after = after;
          left = back k op ∷ ops;
          returns = returns;
          pending = inside lt;
          same = pieces-SameEffect k op ops r.solid.0 l;
          at_most = omega arith;
          whole = λ e. absurd (omega arith);
        }
        | equal e _ ↦ record {
          after = after;
          left = ops;
          returns = returns;
          pending = whole e;
          same = rw (front_all k op r.solid.0 e) (SameEffect-refl _);
          at_most = omega arith;
          whole = λ q. refl;
        }
        | greater gt _ ↦ absurd (omega arith)
      ]

  -- Cutting an operation keeps its kind.
  pub is_delete-front : (k : ℕ) (op : DeltaOperation T) → is_delete (front k op) ≡ is_delete op
  unfolding front
  is_delete-front k (delete n) = refl
  is_delete-front k (retain n a) = refl
  is_delete-front k (insert s a) = refl

  pub is_insert-front : (k : ℕ) (op : DeltaOperation T) → is_insert (front k op) ≡ is_insert op
  unfolding front
  is_insert-front k (delete n) = refl
  is_insert-front k (retain n a) = refl
  is_insert-front k (insert s a) = refl

  -- The three ways in which a round goes on.
  module _ (s : Composing T) (more : has_next s.iter || has_next s.other_iter ≡ true) where
    pub step_insert :
        {op : DeltaOperation T} {c : OperationsCursor T}
        → is_next_insert s.other_iter ≡ true
        → next_op s.other_iter ≡ some (some op, c)
        → compose_step s
          ≡ some (ok (running (record s { other_iter = c; new_delta = add op s.new_delta })))
    unfolding compose_step
    step_insert i e = rw (compose_step, more, i, e) refl

    pub step_delete :
        {op : DeltaOperation T} {c : OperationsCursor T}
        → is_next_insert s.other_iter ≡ false
        → is_next_delete s.iter ≡ true
        → next_op s.iter ≡ some (some op, c)
        → compose_step s
          ≡ some (ok (running (record s { iter = c; new_delta = add op s.new_delta })))
    unfolding compose_step
    step_delete i h e = rw (compose_step, more, i, h, e) refl

    pub step_both :
        {op other_op : Option (DeltaOperation T)} {c c' : OperationsCursor T}
        {d : DeltaOperations T} (k : ℕ)
        → is_next_insert s.other_iter ≡ false
        → is_next_delete s.iter ≡ false
        → min (or_max (next_op_len s.iter)) (or_max (next_op_len s.other_iter)) ≡ k
        → next_op_with_len k s.iter ≡ some (op, c)
        → next_op_with_len k s.other_iter ≡ some (other_op, c')
        → compose_ops (or_retain k op) (or_retain k other_op) s.new_delta ≡ ok d
        → compose_step s ≡ some (ok (running (record { iter = c; other_iter = c'; new_delta = d })))
    unfolding compose_step compose_pair
    step_both k i h z e f g = rw (compose_step, more, i, h, z, e, f, compose_pair, z, g) refl
