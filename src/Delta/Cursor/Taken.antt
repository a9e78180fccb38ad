-- ===== src/Delta/Cursor/Taken.antt =====
-- The cursor with its next operation taken up: the head of the pending ones.
use app_flowy.Prelude.{
  ℕ, ◌+◌, ◌≤◌, ◌≡◌, refl, sym, ap, ap₂, ◌∙◌, min, Option, none, some, List, [], ◌∷◌, ◌++◌,
  append_assoc, option_list, All, arith,
}
use app_flowy.Interval.{interval}
use app_flowy.Delta.Operation.{DeltaOperation, len}
use app_flowy.Delta.Cursor.{
  OperationsCursor, max_iv_len, peek, next_iv_with_len, find_next, first_op,
}
use app_flowy.Delta.Cursor.Pieces.{IsSolid}
use app_flowy.Delta.Cursor.Pending.{total_len, total_len-append, Pending, no_cache, peek-Pending}

module _ {T : Type 0} where
  -- The cursor when `op` was taken up and nothing of it is consumed yet.
  pub record Taken (c : OperationsCursor T) (op : DeltaOperation T) (ops : List (DeltaOperation T))
      : Type 0 where
    pub peeked : peek c ≡ some op
    pub passed : List (DeltaOperation T)
    pub located : c.ops ≡ passed ++ c.iter
    pub counted : total_len passed ≡ c.consume_count + len op
    pub is_rest : ops ≡ c.iter
    pub window : c.consume_iv ≡ interval c.consume_count max_iv_len
    pub bounded : c.consume_count + len op + total_len ops ≤ max_iv_len
    pub solid_op : IsSolid op
    pub solid_ops : All IsSolid ops

  pub first_op-cached :
      (c : OperationsCursor T) {op : DeltaOperation T}
      → c.next_op ≡ some op
      → first_op c ≡ (some op, c)
  unfolding first_op
  first_op-cached c e = rw e

  pub first_op-iter :
      (c : OperationsCursor T) {op : DeltaOperation T} {ops : List (DeltaOperation T)}
      → c.next_op ≡ none
      → c.iter ≡ op ∷ ops
      → first_op c ≡ (some op, record c { op_offset = c.index; iter = ops; index = c.index + 1 })
  unfolding first_op find_next
  first_op-iter c e f = rw (e, f)

  module _ (c : OperationsCursor T) (op : DeltaOperation T) (ops : List (DeltaOperation T))
      (r : Pending c (op ∷ ops)) where
    pub Taken-cached : c.next_op ≡ some op → ops ≡ c.iter → Taken c op ops
    unfolding total_len
    Taken-cached e f = record {
      peeked = peek-Pending c r;
      passed = r.passed;
      located = r.located;
      counted =
          omega
            (arith, r.counted, ap (λ (o : Option (DeltaOperation T)). total_len (option_list o)) e);
      is_rest = f;
      window = r.window;
      bounded = omega (arith, r.bounded);
      solid_op = r.solid.0;
      solid_ops = r.solid.1;
    }

    pub Taken-iter :
        c.next_op ≡ none
        → c.iter ≡ op ∷ ops
        → Taken (record c { op_offset = c.index; iter = ops; index = c.index + 1 }) op ops
    unfolding total_len peek
    Taken-iter e f = record {
      peeked = peek-Pending c r;
      passed = r.passed ++ op ∷ [];
      located = r.located ∙ ap (r.passed ++◌) f ∙ sym (append_assoc r.passed (op ∷ []) ops);
      counted = omega (
        arith,
        total_len-append r.passed (op ∷ []),
        no_cache (option_list c.next_op) (rw e refl) r.counted,
      );
      is_rest = refl;
      window = r.window;
      bounded = omega (arith, r.bounded);
      solid_op = r.solid.0;
      solid_ops = r.solid.1;
    }

  -- Where the cursor takes up its next operation.
  pub record TakesUp (c : OperationsCursor T) (op : DeltaOperation T)
      (ops : List (DeltaOperation T)) : Type 0 where
    pub taken_from : OperationsCursor T
    pub returns : first_op c ≡ (some op, taken_from)
    pub taken : Taken taken_from op ops

  pub first_op-TakesUp :
      (c : OperationsCursor T) (op : DeltaOperation T) (ops : List (DeltaOperation T))
      → Pending c (op ∷ ops)
      → TakesUp c op ops
  first_op-TakesUp c op ops r = by_cache c.next_op c.iter refl refl r.is_pending
    where
      by_cache :
          (o : Option (DeltaOperation T)) (l : List (DeltaOperation T))
          → c.next_op ≡ o
          → c.iter ≡ l
          → op ∷ ops ≡ option_list o ++ l
          → TakesUp c op ops
      by_cache none l e f p = record {
        taken_from = record c { op_offset = c.index; iter = ops; index = c.index + 1 };
        returns = first_op-iter c e (f ∙ sym p);
        taken = Taken-iter c op ops r e (f ∙ sym p);
      }
      by_cache (some x) l e f p =
          let here : c.next_op ≡ some op = cc in
          record {
            taken_from = c;
            returns = first_op-cached c here;
            taken = Taken-cached c op ops r here (cc);
          }

  module _ (c : OperationsCursor T) (op : DeltaOperation T) (peeked : peek c ≡ some op)
      (window : c.consume_iv ≡ interval c.consume_count max_iv_len)
      (fits : c.consume_count + len op ≤ max_iv_len) where
    pub next_iv-some : (k : ℕ) → next_iv_with_len (some k) c ≡ some (interval 0 (min k (len op)))
    unfolding next_iv_with_len
    next_iv-some k =
        rw (peeked, next_iv_with_len, window)
          (ap₂ (λ x y. some (interval x y)) (omega arith) (omega arith))

    pub next_iv-none : next_iv_with_len none c ≡ some (interval 0 (len op))
    unfolding next_iv_with_len
    next_iv-none =
        rw (peeked, next_iv_with_len, window)
          (ap₂ (λ x y. some (interval x y)) (omega arith) (omega arith))
