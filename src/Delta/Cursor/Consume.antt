-- ===== src/Delta/Cursor/Consume.antt =====
-- What a cursor keeps of an operation when a part of its front is handed out.
use app_flowy.Prelude.{
  ℕ, suc, ◌+◌, ◌≤◌, ◌<◌, ◌≡◌, subst, refl, sym, ap, ap₂, true, false, Option, none, some, List, ◌∷◌,
  ◌⊎◌, arith, if◌then◌else◌,
}
use app_flowy.Interval
use app_flowy.Interval.{Interval, interval}
use app_flowy.Attributes.{OperationAttributes}
use app_flowy.Delta.Operation.{DeltaOperation, len, shrink}
use app_flowy.Delta.Cursor.{OperationsCursor, next_iv_with_len, consume, find_loop, missing}
use app_flowy.Delta.Cursor.Pieces.{
  front, back, IsSolid, len-back, back-IsSolid, shrink-front, shrink-back,
}
use app_flowy.Delta.Cursor.Pending.{total_len, Pending}
use app_flowy.Delta.Cursor.Taken.{Taken}

pub suffix-back : (n k : ℕ) → k ≤ n → Interval.suffix (interval 0 n) (interval 0 k) ≡ interval k n
unfolding Interval.suffix
suffix-back n k h = ap₂ interval (omega arith) (omega arith)

module _ {T : Type 0} ⦃attrs : OperationAttributes T⦄ where
  -- What `consume` leaves in the cache.
  pub left_over-inside :
      (op : DeltaOperation T) (k : ℕ)
      → IsSolid op
      → k < len op
      → (let suffix = Interval.suffix (interval 0 (len op)) (interval 0 k) in
          if Interval.is_empty suffix then none else shrink op suffix)
        ≡ some (back k op)
  left_over-inside op k h l =
      rw (suffix-back (len op) k (omega arith), not_empty) (shrink-back k op h l)
    where
      not_empty : Interval.is_empty (interval k (len op)) ≡ false
      not_empty = unfold Interval.is_empty in ground arith

  pub left_over-whole :
      (op : DeltaOperation T) (k : ℕ)
      → k ≡ len op
      → (let suffix = Interval.suffix (interval 0 (len op)) (interval 0 k) in
          if Interval.is_empty suffix then none else shrink op suffix)
        ≡ none
  left_over-whole op k e = rw (suffix-back (len op) k (omega arith), is_whole) refl
    where
      is_whole : Interval.is_empty (interval k (len op)) ≡ true
      is_whole = unfold Interval.is_empty in ground arith

  module _ (c : OperationsCursor T) (op : DeltaOperation T) (ops : List (DeltaOperation T))
      (r : Taken c op ops) (k : ℕ) where
    pub consumed_cursor : Option (DeltaOperation T) → OperationsCursor T
    consumed_cursor o = record c {
      next_op = o;
      consume_count = c.consume_count + k;
      consume_iv = interval (c.consume_count + k) c.consume_iv.end;
    }

    pub consume-inside :
        0 < k → k < len op → Pending (consume op (interval 0 k) c) (back k op ∷ ops)
    unfolding consume consumed_cursor total_len
    consume-inside p l =
        subst (λ o. Pending (consumed_cursor o) (back k op ∷ ops))
          (sym (left_over-inside op k r.solid_op l))
          (record {
            passed = r.passed;
            located = r.located;
            counted = omega (arith, r.counted, len-back k op r.solid_op);
            is_pending = ap (back k op ∷◌) r.is_rest;
            window = ap (λ iv. interval (c.consume_count + k) iv.end) r.window;
            bounded = omega (arith, r.bounded, len-back k op r.solid_op);
            solid = (back-IsSolid k op r.solid_op l, r.solid_ops);
          })

    pub consume-whole : k ≡ len op → Pending (consume op (interval 0 k) c) ops
    unfolding consume consumed_cursor total_len
    consume-whole e =
        subst (λ o. Pending (consumed_cursor o) ops) (sym (left_over-whole op k e))
          (record {
            passed = r.passed;
            located = r.located;
            counted = omega (arith, r.counted);
            is_pending = r.is_rest;
            window = ap (λ (iv : Interval). interval (c.consume_count + k) iv.end) r.window;
            bounded = omega (arith, r.bounded);
            solid = r.solid_ops;
          })

    -- A piece that begins at the front of the operation is found in the first round.
    pub find_loop-front :
        (rounds : ℕ) (expected : Option ℕ)
        → 0 < k
        → next_iv_with_len expected c ≡ some (interval 0 k)
        → find_loop (suc rounds) expected (some op) 0 c
          ≡ some (some (front k op), 0 + k, consume op (interval 0 k) c)
    unfolding find_loop
    find_loop-front rounds expected p e =
        ground (arith, e, shrink-front k op r.solid_op p, not_empty)
      where
        not_empty : Interval.is_empty (interval 0 k) ≡ false
        not_empty = unfold Interval.is_empty in ground arith

    pub nothing_missing :
        (expected : Option ℕ) (c' : OperationsCursor T)
        → (expected ≡ none) ⊎ (expected ≡ some k)
        → missing expected (0 + k) c' ≡ none
    unfolding missing
    nothing_missing expected c' h = ground arith
