-- ===== src/Delta/Lengths.antt =====
-- The recorded lengths of a delta under `add`.
use app_flowy.Prelude.{
  ℕ, ◌+◌, ◌≡◌, refl, Option, none, some, List, [], ◌∷◌, ◌++◌, All, All-append, option_list,
  on_last-All, on_last_two-All, ◌<◌, append_assoc, append-nil, ◌==◌, is_nil, Bool-cases, inl, inr,
  arith,
}
use app_flowy.OtStr.{Text, utf16_len}
use app_flowy.OtStr.Units.{utf16_len-eq-text_units}
use app_flowy.Attributes.{OperationAttributes}
use app_flowy.Delta.Operation.{DeltaOperation, delete, retain, insert}
use app_flowy.Delta.Ops.{
  DeltaOperations, last_delete, merge_or_new_op, last_insert, last_retain, add_delete, add_insert,
  add_retain, add, add_all,
}
use app_flowy.Delta.Meaning.{
  base_len, target_len, SameEffect, SameEffect-refl, SameEffect-trans, SameEffect-append,
  base_len-append, target_len-append, IsPositive, IsWellFormed,
}
use app_flowy.Delta.Add.{add-SameEffect}

module _ {T : Type 0} ⦃attrs : OperationAttributes T⦄ where
  pub last_delete-IsPositive :
      (n : ℕ) (o : Option (DeltaOperation T))
      → 0 < n
      → All IsPositive (option_list o)
      → All IsPositive (last_delete n o)
  unfolding last_delete
  last_delete-IsPositive n none h p = (h, tt)
  last_delete-IsPositive n (some (delete m)) h p = (omega arith, tt)
  last_delete-IsPositive n (some (retain m a)) h p = (p.0, (h, tt))
  last_delete-IsPositive n (some (insert s a)) h p = (tt, (h, tt))

  pub last_retain-IsPositive :
      (n : ℕ) (b : T) (o : Option (DeltaOperation T))
      → 0 < n
      → All IsPositive (option_list o)
      → All IsPositive (last_retain n b o)
  unfolding last_retain
  last_retain-IsPositive n b none h p = (h, tt)
  last_retain-IsPositive n b (some (delete m)) h p = (p.0, (h, tt))
  last_retain-IsPositive n b (some (retain m a)) h p = elim (Bool-cases (attrs.beq a b)) [
    | inl same ↦ rw same (omega arith, tt)
    | inr other ↦ rw other (p.0, (h, tt))
  ]
  last_retain-IsPositive n b (some (insert s a)) h p = (tt, (h, tt))

  pub merge-IsPositive :
      (s t : Text) (a b : T) (rest : List (DeltaOperation T))
      → All IsPositive rest
      → All IsPositive (merge_or_new_op s a t b rest)
  unfolding merge_or_new_op
  merge-IsPositive s t a b rest h = elim (Bool-cases (attrs.beq a b)) [
    | inl same ↦ rw same (tt, h)
    | inr other ↦ rw other (tt, All-append IsPositive rest _ h (tt, tt))
  ]

  pub last_insert-IsPositive :
      (t : Text) (b : T) (p o : Option (DeltaOperation T))
      → All IsPositive (option_list p ++ option_list o)
      → All IsPositive (last_insert t b p o)
  unfolding last_insert
  last_insert-IsPositive t b none none h = (tt, tt)
  last_insert-IsPositive t b (some p) none h = (h.0, (tt, tt))
  last_insert-IsPositive t b none (some (insert s a)) h = merge-IsPositive s t a b [] tt
  last_insert-IsPositive t b (some p) (some (insert s a)) h = (h.0, merge-IsPositive s t a b [] tt)
  last_insert-IsPositive t b none (some (delete n)) h = (tt, h)
  last_insert-IsPositive t b (some (insert s a)) (some (delete n)) h =
      merge-IsPositive s t a b _ h.1
  last_insert-IsPositive t b (some (delete m)) (some (delete n)) h = (h.0, (tt, h.1))
  last_insert-IsPositive t b (some (retain m a)) (some (delete n)) h = (h.0, (tt, h.1))
  last_insert-IsPositive t b none (some (retain n a)) h = (h.0, (tt, tt))
  last_insert-IsPositive t b (some p) (some (retain n a)) h = (h.0, (h.1.0, (tt, tt)))

  pub add-IsPositive :
      (op : DeltaOperation T) (d : DeltaOperations T)
      → All IsPositive d.ops
      → All IsPositive (add op d).ops
  unfolding add add_delete add_insert add_retain
  add-IsPositive (delete n) d h = elim (Bool-cases (n == 0)) [
    | inl z ↦ rw z h
    | inr p ↦ rw p (
        on_last-All IsPositive (last_delete n) d.ops
          (λ o. last_delete-IsPositive n o (ground arith)) h)
  ]
  add-IsPositive (retain n a) d h = elim (Bool-cases (n == 0)) [
    | inl z ↦ rw z h
    | inr p ↦ rw p (
        on_last-All IsPositive (last_retain n a) d.ops
          (λ o. last_retain-IsPositive n a o (ground arith)) h)
  ]
  add-IsPositive (insert s a) d h = elim (Bool-cases (is_nil s)) [
    | inl z ↦ rw z h
    | inr p ↦
        rw p (on_last_two-All IsPositive (last_insert s a) d.ops (last_insert-IsPositive s a) h)
  ]

  -- Lengths of the operation alone.
  abbrev pub base_of : DeltaOperation T → ℕ
  base_of (delete n) = n
  base_of (retain n a) = n
  base_of (insert s a) = 0

  abbrev pub target_of : DeltaOperation T → ℕ
  target_of (delete n) = 0
  target_of (retain n a) = n
  target_of (insert s a) = utf16_len s

  pub base_len-snoc :
      (xs : List (DeltaOperation T)) (op : DeltaOperation T)
      → base_len (xs ++ op ∷ []) ≡ base_len xs + base_of op
  unfolding base_len
  base_len-snoc xs (delete n) = omega (arith, base_len-append xs (delete n ∷ []))
  base_len-snoc xs (retain n a) = omega (arith, base_len-append xs (retain n a ∷ []))
  base_len-snoc xs (insert s a) = omega (arith, base_len-append xs (insert s a ∷ []))

  pub target_len-snoc :
      (xs : List (DeltaOperation T)) (op : DeltaOperation T)
      → target_len (xs ++ op ∷ []) ≡ target_len xs + target_of op
  unfolding target_len
  target_len-snoc xs (delete n) = omega (arith, target_len-append xs (delete n ∷ []))
  target_len-snoc xs (retain n a) = omega (arith, target_len-append xs (retain n a ∷ []))
  target_len-snoc xs (insert s a) = omega (arith, target_len-append xs (insert s a ∷ []))

  -- What `add` records of the operation.
  pub base-add :
      (op : DeltaOperation T) (d : DeltaOperations T)
      → (add op d).utf16_base_len ≡ d.utf16_base_len + base_of op
  unfolding add add_delete add_insert add_retain
  base-add (delete n) d = ground arith
  base-add (retain n a) d = ground arith
  base-add (insert s a) d = ground arith

  pub target-add :
      (op : DeltaOperation T) (d : DeltaOperations T)
      → (add op d).utf16_target_len ≡ d.utf16_target_len + target_of op
  unfolding add add_delete add_insert add_retain
  target-add (delete n) d = ground arith
  target-add (retain n a) d = ground arith
  target-add (insert [] a) d = omega (arith, utf16_len-eq-text_units [])
  target-add (insert (c ∷ s) a) d = refl

  -- A well-formed delta stays well-formed when an operation is added: the recorded lengths are
  -- those of the operations, and no deletion or retention has length 0.
  pub add-IsWellFormed :
      (op : DeltaOperation T) (d : DeltaOperations T) → IsWellFormed d → IsWellFormed (add op d)
  add-IsWellFormed op d h = record {
    base =
        omega
          (arith, (add-SameEffect op d).same_base, base_len-snoc d.ops op, base-add op d, h.base);
    target = omega (
      arith,
      (add-SameEffect op d).same_target,
      target_len-snoc d.ops op,
      target-add op d,
      h.target,
    );
    positive = add-IsPositive op d h.positive;
  }

  pub add_all-IsWellFormed :
      (ops : List (DeltaOperation T)) (d : DeltaOperations T)
      → IsWellFormed d
      → IsWellFormed (add_all ops d)
  unfolding add_all
  add_all-IsWellFormed [] d h = h
  add_all-IsWellFormed (op ∷ ops) d h =
      add_all-IsWellFormed ops (add op d) (add-IsWellFormed op d h)

  pub add_all-SameEffect :
      (ops : List (DeltaOperation T)) (d : DeltaOperations T)
      → SameEffect (add_all ops d).ops (d.ops ++ ops)
  unfolding add_all
  add_all-SameEffect [] d = rw append-nil (SameEffect-refl d.ops)
  add_all-SameEffect (op ∷ ops) d = rw append_assoc at (
      SameEffect-trans (add_all-SameEffect ops (add op d))
        (SameEffect-append ops (add-SameEffect op d)))
