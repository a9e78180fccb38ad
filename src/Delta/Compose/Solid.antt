-- ===== src/Delta/Compose/Solid.antt =====
-- The operations that `add` and `compose` leave are as `compose` wants them: a delta that it made can
-- be composed again.
use app_flowy.Prelude.{
  ℕ, zero, suc, ◌+◌, ◌≤◌, ◌<◌, ◌≡◌, Option, none, some, List, [], ◌∷◌, ◌++◌, length, length-append,
  All, All-append, option_list, ◌||◌, subst, on_last-All, on_last_two-All, ◌==◌, Bool-cases, inl,
  inr, arith,
}
use app_flowy.Errors.{Result, ok, err, ◌>>=◌}
use app_flowy.OtStr.{Text}
use app_flowy.Attributes.{OperationAttributes}
use app_flowy.Delta.Operation.{DeltaOperation, delete, retain, insert, len}
use app_flowy.Delta.Ops.{
  DeltaOperations, new, last_delete, merge_or_new_op, last_insert, last_retain, add_delete,
  add_insert, add_retain, add,
}
use app_flowy.Delta.Meaning.{base_len, target_len, AllBmp, IsPositive}
use app_flowy.Delta.Cursor.{
  OperationsCursor, new_iterator, has_next, is_next_insert, is_next_delete, next_op,
}
use app_flowy.Delta.Cursor.Pieces.{IsSolid}
use app_flowy.Delta.Cursor.Pending.{total_len}
use app_flowy.Delta.Compose.{
  Composing, Step, finished, running, or_retain, compose_ops, compose_pair, compose_step,
  compose_loop, compose,
}

module _ {T : Type 0} where
  -- No insertion is empty.
  abbrev pub HasText : DeltaOperation T → Type 0
  HasText (delete n) = Unit
  HasText (retain n a) = Unit
  HasText (insert s a) = 0 < length s

  pub All-IsSolid :
      (ops : List (DeltaOperation T))
      → All IsPositive ops
      → All HasText ops
      → AllBmp ops
      → All IsSolid ops
  unfolding AllBmp
  All-IsSolid [] p t b = tt
  All-IsSolid (delete n ∷ ops) p t b = (p.0, All-IsSolid ops p.1 t.1 b)
  All-IsSolid (retain n a ∷ ops) p t b = (p.0, All-IsSolid ops p.1 t.1 b)
  All-IsSolid (insert s a ∷ ops) p t b = ((t.0, b.0), All-IsSolid ops p.1 t.1 b.1)

  -- Every operation counts in the lengths of the texts before or after.
  pub total_len-le : (ops : List (DeltaOperation T)) → total_len ops ≤ base_len ops + target_len ops
  unfolding total_len len base_len target_len
  total_len-le [] = omega arith
  total_len-le (delete n ∷ ops) = omega (arith, total_len-le ops)
  total_len-le (retain n a ∷ ops) = omega (arith, total_len-le ops)
  total_len-le (insert s a ∷ ops) = omega (arith, total_len-le ops)

module _ {T : Type 0} ⦃attrs : OperationAttributes T⦄ where
  last_delete-HasText :
      (n : ℕ) (o : Option (DeltaOperation T))
      → All HasText (option_list o)
      → All HasText (last_delete n o)
  unfolding last_delete
  last_delete-HasText n none h = (tt, tt)
  last_delete-HasText n (some (delete m)) h = (tt, tt)
  last_delete-HasText n (some (retain m a)) h = (tt, (tt, tt))
  last_delete-HasText n (some (insert s a)) h = (h.0, (tt, tt))

  last_retain-HasText :
      (n : ℕ) (b : T) (o : Option (DeltaOperation T))
      → All HasText (option_list o)
      → All HasText (last_retain n b o)
  unfolding last_retain
  last_retain-HasText n b none h = (tt, tt)
  last_retain-HasText n b (some (delete m)) h = (tt, (tt, tt))
  last_retain-HasText n b (some (retain m a)) h = ground arith
  last_retain-HasText n b (some (insert s a)) h = (h.0, (tt, tt))

  merge-HasText :
      (s t : Text) (a b : T) (rest : List (DeltaOperation T))
      → 0 < length s
      → 0 < length t
      → All HasText rest
      → All HasText (merge_or_new_op s a t b rest)
  unfolding merge_or_new_op
  merge-HasText s t a b rest p q h = elim (Bool-cases (attrs.beq a b)) [
    | inl same ↦ rw same (omega (arith, length-append s t), h)
    | inr other ↦ rw other (p, All-append HasText rest (insert t b ∷ []) h (q, tt))
  ]

  last_insert-HasText :
      (t : Text) (b : T) (p o : Option (DeltaOperation T))
      → 0 < length t
      → All HasText (option_list p ++ option_list o)
      → All HasText (last_insert t b p o)
  unfolding last_insert
  last_insert-HasText t b none none l h = (l, tt)
  last_insert-HasText t b (some p) none l h = (h.0, (l, tt))
  last_insert-HasText t b none (some (insert s a)) l h = merge-HasText s t a b [] h.0 l tt
  last_insert-HasText t b (some p) (some (insert s a)) l h =
      (h.0, merge-HasText s t a b [] h.1.0 l tt)
  last_insert-HasText t b none (some (delete n)) l h = (l, (tt, tt))
  last_insert-HasText t b (some (insert s a)) (some (delete n)) l h =
      merge-HasText s t a b (delete n ∷ []) h.0 l (tt, tt)
  last_insert-HasText t b (some (delete m)) (some (delete n)) l h = (tt, (l, (tt, tt)))
  last_insert-HasText t b (some (retain m a)) (some (delete n)) l h = (tt, (l, (tt, tt)))
  last_insert-HasText t b none (some (retain n a)) l h = (tt, (l, tt))
  last_insert-HasText t b (some p) (some (retain n a)) l h = (h.0, (tt, (l, tt)))

  pub add-HasText :
      (op : DeltaOperation T) (d : DeltaOperations T)
      → All HasText d.ops
      → All HasText (add op d).ops
  unfolding add add_delete add_insert add_retain
  add-HasText (delete n) d h = elim (Bool-cases (n == 0)) [
    | inl z ↦ rw z h
    | inr p ↦ rw p (on_last-All HasText (last_delete n) d.ops (last_delete-HasText n) h)
  ]
  add-HasText (retain n a) d h = elim (Bool-cases (n == 0)) [
    | inl z ↦ rw z h
    | inr p ↦ rw p (on_last-All HasText (last_retain n a) d.ops (last_retain-HasText n a) h)
  ]
  add-HasText (insert [] a) d h = h
  add-HasText (insert (c ∷ s) a) d h =
      on_last_two-All HasText (last_insert (c ∷ s) a) d.ops
        (λ p o q. last_insert-HasText (c ∷ s) a p o (omega arith) q) h

  -- What `compose` adds to, of a step that returns.
  abbrev Keeps : Option (Result (Step T)) → Type 0
  Keeps none = Unit
  Keeps (some (err e)) = Unit
  Keeps (some (ok (finished d))) = All HasText d.ops
  Keeps (some (ok (running s))) = All HasText s.new_delta.ops

  compose_pair-HasText :
      (n : ℕ) (taken taken' : Option (Option (DeltaOperation T) × OperationsCursor T))
      (d : DeltaOperations T)
      → All HasText d.ops
      → Keeps (compose_pair n taken taken' d)
  unfolding compose_pair compose_ops
  compose_pair-HasText n none taken' d h = tt
  compose_pair-HasText n (some x) none d h = tt
  compose_pair-HasText n (some (op, c)) (some (op', c')) d h =
      joined (or_retain n op) (or_retain n op')
    where
      kept :
          (r : Result T) (make : T → DeltaOperation T)
          → Keeps (
              some (
                (r >>= λ a. ok (add (make a) d)) >>= λ d'.
                ok (running (record { iter = c; other_iter = c'; new_delta = d' }))))
      kept (err e) make = tt
      kept (ok a) make = add-HasText (make a) d h

      joined :
          (op op' : DeltaOperation T)
          → Keeps (
              some (
                compose_ops op op' d >>= λ d'.
                ok (running (record { iter = c; other_iter = c'; new_delta = d' }))))
      joined (retain m a) (retain k b) = kept (attrs.compose a b) (retain m)
      joined (insert s a) (retain k b) = kept (attrs.compose a b) (λ x. insert s (attrs.remove x))
      joined (retain m a) (delete k) = add-HasText (delete k) d h
      joined (retain m a) (insert t b) = h
      joined (insert s a) (delete k) = h
      joined (insert s a) (insert t b) = h
      joined (delete m) (delete k) = h
      joined (delete m) (retain k b) = h
      joined (delete m) (insert t b) = h

  compose_step-HasText : (s : Composing T) → All HasText s.new_delta.ops → Keeps (compose_step s)
  unfolding compose_step
  compose_step-HasText s h = elim (Bool-cases (has_next s.iter || has_next s.other_iter)) [
    | inr over ↦ rw (compose_step, over) h
    | inl more ↦ elim (Bool-cases (is_next_insert s.other_iter)) [
      | inl inserts ↦ rw (compose_step, more, inserts) (from_other (next_op s.other_iter))
      | inr others ↦ elim (Bool-cases (is_next_delete s.iter)) [
        | inl deletes ↦ rw (compose_step, more, others, deletes) (from_first (next_op s.iter))
        | inr both ↦
            rw (compose_step, more, others, both) (compose_pair-HasText _ _ _ s.new_delta h)
      ]
    ]
  ]
    where
      from_other :
          (t : Option (Option (DeltaOperation T) × OperationsCursor T))
          → Keeps (elim t [
            | none ↦ none
            | some (none, c) ↦ none
            | some (some op, c) ↦
                some (ok (running (record s { other_iter = c; new_delta = add op s.new_delta })))
          ])
      from_other none = tt
      from_other (some (none, c)) = tt
      from_other (some (some op, c)) = add-HasText op s.new_delta h

      from_first :
          (t : Option (Option (DeltaOperation T) × OperationsCursor T))
          → Keeps (elim t [
            | none ↦ none
            | some (none, c) ↦ none
            | some (some op, c) ↦
                some (ok (running (record s { iter = c; new_delta = add op s.new_delta })))
          ])
      from_first none = tt
      from_first (some (none, c)) = tt
      from_first (some (some op, c)) = add-HasText op s.new_delta h

  compose_loop-HasText :
      (rounds : ℕ) (s : Composing T) {d : DeltaOperations T}
      → All HasText s.new_delta.ops
      → compose_loop rounds s ≡ some (ok d)
      → All HasText d.ops
  unfolding compose_loop
  compose_loop-HasText zero s h e = cc
  compose_loop-HasText (suc rounds) s {d} h e =
      after (compose_step s) (λ s' k q. compose_loop-HasText rounds s' k q)
        (compose_step-HasText s h) e
    where
      after :
          (r : Option (Result (Step T)))
          → ((s' : Composing T)
              → All HasText s'.new_delta.ops
              → compose_loop rounds s' ≡ some (ok d)
              → All HasText d.ops)
          → Keeps r
          → elim r [
            | none ↦ none
            | some (err e) ↦ some (err e)
            | some (ok (finished d)) ↦ some (ok d)
            | some (ok (running s')) ↦ compose_loop rounds s'
          ]
            ≡ some (ok d)
          → All HasText d.ops
      after none on k e = cc
      after (some (err x)) on k e = cc
      after (some (ok (finished d'))) on k e =
          let p : d' ≡ d = cc in subst (λ (x : DeltaOperations T). All HasText x.ops) p k
      after (some (ok (running s'))) on k e = on s' k e

  pub compose-HasText :
      (a b : DeltaOperations T) {c : DeltaOperations T}
      → compose a b ≡ some (ok c)
      → All HasText c.ops
  unfolding compose
  compose-HasText a b e =
      compose_loop-HasText (length a.ops + length b.ops + 1)
        (record { iter = new_iterator a; other_iter = new_iterator b; new_delta = new }) tt e
