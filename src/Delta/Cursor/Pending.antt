-- ===== src/Delta/Cursor/Pending.antt =====
-- The operations that a cursor still hands out.
use app_flowy.Prelude.{
  ℕ, ◌+◌, ◌≤◌, ◌≡◌, subst, refl, List, [], ◌∷◌, ◌++◌, option_list, Option-cases, inl, inr, All,
  arith,
}
use mathlib.Core.List.{head?}
use app_flowy.Interval.{interval}
use app_flowy.Delta.Operation.{DeltaOperation, len}
use app_flowy.Delta.Ops.{DeltaOperations}
use app_flowy.Delta.Cursor.{OperationsCursor, max_iv_len, scan, peek, new_iterator}
use app_flowy.Delta.Cursor.Pieces.{IsSolid, len-positive}

module _ {T : Type 0} where
  unfoldable pub total_len : List (DeltaOperation T) → ℕ
  total_len [] = 0
  total_len (op ∷ ops) = len op + total_len ops

  pub total_len-append :
      (xs ys : List (DeltaOperation T)) → total_len (xs ++ ys) ≡ total_len xs + total_len ys
  unfolding total_len
  total_len-append [] ys = omega arith
  total_len-append (op ∷ xs) ys = omega (arith, total_len-append xs ys)

  -- `pending` is what the cursor still hands out, `passed` what its iterator has yielded.
  pub record Pending (c : OperationsCursor T) (pending : List (DeltaOperation T)) : Type 0 where
    pub passed : List (DeltaOperation T)
    pub located : c.ops ≡ passed ++ c.iter
    pub counted : total_len passed ≡ c.consume_count + total_len (option_list c.next_op)
    pub is_pending : pending ≡ option_list c.next_op ++ c.iter
    pub window : c.consume_iv ≡ interval c.consume_count max_iv_len
    pub bounded : c.consume_count + total_len pending ≤ max_iv_len
    pub solid : All IsSolid pending

  pub scan-passed :
      (offset count : ℕ) (passed iter : List (DeltaOperation T))
      → offset + total_len passed ≡ count
      → All IsSolid iter
      → scan offset count (passed ++ iter) ≡ head? iter
  unfolding scan total_len
  scan-passed offset count [] [] e h = refl
  scan-passed offset count [] (op ∷ iter) e h = ground (arith, len-positive op h.0)
  scan-passed offset count (op ∷ passed) iter e h =
      ground (arith, scan-passed (offset + len op) count passed iter)

  pub no_cache :
      {n m : ℕ} (none_left : List (DeltaOperation T))
      → none_left ≡ []
      → n ≡ m + total_len none_left
      → n ≡ m
  unfolding total_len
  no_cache [] p h = omega arith
  no_cache (op ∷ ops) p h = cc

  -- The next operation is the first that is pending.
  pub peek-Pending :
      (c : OperationsCursor T) {pending : List (DeltaOperation T)}
      → Pending c pending
      → peek c ≡ head? pending
  unfolding peek
  peek-Pending c r = elim (Option-cases c.next_op) [
    | inl e ↦
        rw (r.is_pending, e, r.located)
          (scan-passed 0 c.consume_count r.passed c.iter
            (omega (arith, no_cache (option_list c.next_op) (rw e refl) r.counted))
            (subst (All IsSolid) (rw e at r.is_pending) r.solid))
    | inr (op, e) ↦ rw (r.is_pending, e)
  ]

  pub new_iterator-Pending :
      (d : DeltaOperations T)
      → All IsSolid d.ops
      → total_len d.ops ≤ max_iv_len
      → Pending (new_iterator d) d.ops
  unfolding new_iterator total_len
  new_iterator-Pending d s b = record {
    passed = [];
    located = refl;
    counted = refl;
    is_pending = refl;
    window = refl;
    bounded = omega (arith, b);
    solid = s;
  }
