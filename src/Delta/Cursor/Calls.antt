-- ===== src/Delta/Cursor/Calls.antt =====
-- The methods of the iterator, by the operations that are pending.
use app_flowy.Prelude.{
  ℕ, suc, ◌≤◌, ◌<◌, ◌≡◌, refl, ap, ◌∙◌, Option, none, some, List, [], ◌∷◌, ◌++◌, option_list, ◌⊎◌,
  inl, inr, length, subst, ltb, compare-cases, less, equal, greater, if◌then◌else◌, arith,
}
use app_flowy.Interval
use app_flowy.Interval.{Interval, interval}
use app_flowy.Attributes.{OperationAttributes}
use app_flowy.Delta.Operation.{DeltaOperation, len}
use app_flowy.Delta.Cursor.{
  OperationsCursor, next_iv_with_len, next_iv, find_next, consume, find_loop, first_op,
  next_with_len, next_op, next_op_with_len, next_op_len,
}
use app_flowy.Delta.Cursor.Pieces.{front, back, len-positive, front_all}
use app_flowy.Delta.Cursor.Pending.{total_len, Pending, peek-Pending}
use app_flowy.Delta.Cursor.Taken.{Taken, first_op-TakesUp, next_iv-some, next_iv-none}
use app_flowy.Delta.Cursor.Consume.{consume-inside, consume-whole, find_loop-front, nothing_missing}

module _ {T : Type 0} ⦃attrs : OperationAttributes T⦄ where
  -- A call for the whole operation, or for `k` units that it has.
  abbrev pub Asks : DeltaOperation T → ℕ → Option ℕ → Type 0
  Asks op k expected = ((expected ≡ none) × (k ≡ len op)) ⊎ ((expected ≡ some k) × (k ≤ len op))

  pub expected_iv :
      (c : OperationsCursor T) (op : DeltaOperation T) (ops : List (DeltaOperation T)) (k : ℕ)
      (expected : Option ℕ)
      → Taken c op ops
      → Asks op k expected
      → next_iv_with_len expected c ≡ some (interval 0 k)
  expected_iv c op ops k expected t (inl (e, h)) =
      rw (e, h) (next_iv-none c op t.peeked t.window (omega (arith, t.bounded)))
  expected_iv c op ops k expected t (inr (e, h)) = rw e (
      next_iv-some c op t.peeked t.window (omega (arith, t.bounded)) k
      ∙ ap (λ n. some (interval 0 n)) (omega arith))

  pub Asks-once :
      (op : DeltaOperation T) (k : ℕ) (expected : Option ℕ)
      → Asks op k expected
      → (expected ≡ none) ⊎ (expected ≡ some k)
  Asks-once op k expected (inl (e, h)) = inl e
  Asks-once op k expected (inr (e, h)) = inr e

  -- What a call returns that hands out `k` units of `op`.
  pub record HandsOut (op : DeltaOperation T) (ops : List (DeltaOperation T)) (k : ℕ)
      (result : Option (Option (DeltaOperation T) × OperationsCursor T)) : Type 0 where
    pub after : OperationsCursor T
    pub returns : result ≡ some (some (front k op), after)
    pub inside : k < len op → Pending after (back k op ∷ ops)
    pub whole : k ≡ len op → Pending after ops

  pub next_with_len-HandsOut :
      (rounds : ℕ) (expected : Option ℕ) (c : OperationsCursor T) (op : DeltaOperation T)
      (ops : List (DeltaOperation T)) (k : ℕ)
      → Pending c (op ∷ ops)
      → 0 < k
      → Asks op k expected
      → HandsOut op ops k (next_with_len (suc rounds) expected c)
  unfolding next_with_len
  next_with_len-HandsOut rounds expected c op ops k r p h =
      let t = first_op-TakesUp c op ops r in
      record {
        after = consume op (interval 0 k) t.taken_from;
        returns = rw (
          next_with_len,
          t.returns,
          find_loop-front t.taken_from op ops t.taken k rounds expected p
              (expected_iv t.taken_from op ops k expected t.taken h),
          nothing_missing t.taken_from op ops t.taken k expected
              (consume op (interval 0 k) t.taken_from) (Asks-once op k expected h),
        );
        inside = consume-inside t.taken_from op ops t.taken k p;
        whole = consume-whole t.taken_from op ops t.taken k;
      }

  module _ (c : OperationsCursor T) (op : DeltaOperation T) (ops : List (DeltaOperation T))
      (r : Pending c (op ∷ ops)) where
    -- A call with a length hands out that much of the next operation, and keeps the rest.
    pub next_op_with_len-front :
        (k : ℕ)
        → 0 < k
        → k ≤ len op
        → (c' : OperationsCursor T) × (next_op_with_len k c ≡ some (some (front k op), c'))
          × (k < len op → Pending c' (back k op ∷ ops))
          × (k ≡ len op → Pending c' ops)
    unfolding next_op_with_len
    next_op_with_len-front k p l =
        let h =
          next_with_len-HandsOut (suc (length c.iter)) (some k) c op ops k r p (inr (refl, l)) in
        (h.after, h.returns, h.inside, h.whole)

    -- What is pending after `k` units of the first operation were taken.
    abbrev pub rest_after : ℕ → List (DeltaOperation T)
    rest_after k = if ltb k (len op) then back k op ∷ ops else ops

    -- Where a solid operation is the next that a cursor hands out and `k` is positive and at most its
    -- length, `next_op_with_len k` returns the first `k` units of it, and the cursor goes on with the
    -- rest of that operation, if any, and the operations behind it.
    pub next_op_with_len-rest :
        (k : ℕ)
        → 0 < k
        → k ≤ len op
        → (c' : OperationsCursor T) × (next_op_with_len k c ≡ some (some (front k op), c'))
          × Pending c' (rest_after k)
    next_op_with_len-rest k p l =
        let (c', e, inside, whole) = next_op_with_len-front k p l in
        (
          c',
          e,
          elim (compare-cases k (len op)) [
            | less h _ ↦ subst (Pending c') (ground arith) (inside h)
            | equal h _ ↦ subst (Pending c') (ground arith) (whole h)
            | greater h _ ↦ absurd (omega arith)
          ],
        )

    -- A call without a length hands out the next operation.
    pub next_op-whole :
        (c' : OperationsCursor T) × (next_op c ≡ some (some op, c')) × Pending c' ops
    unfolding next_op
    next_op-whole =
        let h =
          next_with_len-HandsOut (suc (length c.iter)) none c op ops (len op) r
            (len-positive op r.solid.0) (inl (refl, refl)) in
        (
          h.after,
          h.returns ∙ ap (λ o. some (some o, h.after)) (front_all (len op) op r.solid.0 refl),
          h.whole refl,
        )

    pub next_op_len-some : next_op_len c ≡ some (len op)
    unfolding next_op_len next_iv Interval.is_empty Interval.size total_len
    next_op_len-some = ground (
      arith,
      next_iv-none c op (peek-Pending c r) r.window (omega (arith, r.bounded)),
      len-positive op r.solid.0,
    )

  module _ (c : OperationsCursor T) (r : Pending c []) where
    first_op-none : first_op c ≡ (none, c)
    unfolding first_op find_next
    first_op-none = by_cache c.next_op c.iter refl refl r.is_pending
      where
        by_cache :
            (o : Option (DeltaOperation T)) (l : List (DeltaOperation T))
            → c.next_op ≡ o
            → c.iter ≡ l
            → [] ≡ option_list o ++ l
            → first_op c ≡ (none, c)
        by_cache none [] e f p = ground (arith, e, f)
        by_cache none (x ∷ l) e f p = cc
        by_cache (some x) l e f p = cc

    pub next_op_with_len-exhausted : (k : ℕ) → next_op_with_len k c ≡ some (none, c)
    unfolding next_op_with_len next_with_len find_loop
    next_op_with_len-exhausted k = rw (next_with_len, first_op-none)

    pub next_op-exhausted : next_op c ≡ some (none, c)
    unfolding next_op next_with_len find_loop
    next_op-exhausted = rw (next_with_len, first_op-none)

    pub next_op_len-none : next_op_len c ≡ none
    unfolding next_op_len next_iv next_iv_with_len Interval.is_empty
    next_op_len-none = ground (arith, peek-Pending c r)
