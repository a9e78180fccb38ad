-- ===== src/Delta/Add.antt =====
-- `add` of shared-lib/lib-ot/src/core/delta/ops.rs, against appending to the list of operations.
use app_flowy.Prelude.{
  ℕ, ◌≡◌, refl, true, Option, none, some, List, [], ◌∷◌, ◌++◌, option_list, ◌==◌, is_nil,
  Bool-cases, inl, inr, arith,
}
use app_flowy.OtStr.{Text}
use app_flowy.OtStr.Units.{utf16_len-eq-text_units}
use app_flowy.Attributes.{OperationAttributes}
use app_flowy.Delta.Operation.{DeltaOperation, delete, retain, insert}
use app_flowy.Delta.Ops.{
  DeltaOperations, last_delete, merge_or_new_op, last_insert, last_retain, add_delete, add_insert,
  add_retain, add,
}
use app_flowy.Delta.Meaning.{
  written, base_len, target_len, AllBmp, SameEffect, SameEffect-refl, SameEffect-trans,
  SameEffect-cons, split_retain, split_delete, split_insert, swap_insert_delete, on_last-related,
  on_last_two-related, append-related,
}

module _ {T : Type 0} where
  pub last_delete-SameEffect :
      (n : ℕ) (o : Option (DeltaOperation T))
      → SameEffect (last_delete n o) (option_list o ++ delete n ∷ [])
  unfolding last_delete
  last_delete-SameEffect n none = SameEffect-refl _
  last_delete-SameEffect n (some (delete m)) = split_delete m n []
  last_delete-SameEffect n (some (retain m a)) = SameEffect-refl _
  last_delete-SameEffect n (some (insert s a)) = SameEffect-refl _

  pub empty_delete : (n : ℕ) → n ≡ 0 → SameEffect {T = T} [] (delete n ∷ [])
  unfolding written base_len target_len AllBmp
  empty_delete n e = rw e (record {
    same_text = λ s. refl;
    same_base = omega arith;
    same_target = refl;
    same_bmp = (λ h. tt, λ h. tt);
  })

  pub empty_retain : (n : ℕ) (a : T) → n ≡ 0 → SameEffect [] (retain n a ∷ [])
  unfolding written base_len target_len AllBmp
  empty_retain n a e = rw e (record {
    same_text = λ s. refl;
    same_base = omega arith;
    same_target = omega arith;
    same_bmp = (λ h. tt, λ h. tt);
  })

  pub empty_insert : (s : Text) (a : T) → s ≡ [] → SameEffect [] (insert s a ∷ [])
  unfolding written base_len target_len AllBmp
  empty_insert s a e = rw e (record {
    same_text = λ s. refl;
    same_base = refl;
    same_target = omega (arith, utf16_len-eq-text_units []);
    same_bmp = (λ h. (tt, tt), λ h. tt);
  })

pub is_nil→nil : (s : Text) → is_nil s ≡ true → s ≡ []
is_nil→nil [] h = refl
is_nil→nil (c ∷ s) h = cc

module _ {T : Type 0} ⦃attrs : OperationAttributes T⦄ where
  pub merge-nil :
      (s t : Text) (a b : T)
      → SameEffect (merge_or_new_op s a t b []) (insert s a ∷ insert t b ∷ [])
  unfolding merge_or_new_op
  merge-nil s t a b = elim (Bool-cases (attrs.beq a b)) [
    | inl same ↦ rw same (split_insert s t a b [])
    | inr other ↦ rw other (SameEffect-refl _)
  ]

  pub merge-delete :
      (s t : Text) (a b : T) (n : ℕ)
      → SameEffect
          (merge_or_new_op s a t b (delete n ∷ []))
          (insert s a ∷ delete n ∷ insert t b ∷ [])
  unfolding merge_or_new_op
  merge-delete s t a b n = elim (Bool-cases (attrs.beq a b)) [
    | inl same ↦ rw same (
        SameEffect-trans (split_insert s t a b (delete n ∷ []))
          (SameEffect-cons (insert s a) (swap_insert_delete t b n [])))
    | inr other ↦ rw other (SameEffect-refl _)
  ]

  pub last_insert-SameEffect :
      (t : Text) (b : T) (p o : Option (DeltaOperation T))
      → SameEffect (last_insert t b p o) (option_list p ++ option_list o ++ insert t b ∷ [])
  unfolding last_insert
  last_insert-SameEffect t b none none = SameEffect-refl _
  last_insert-SameEffect t b (some p) none = SameEffect-refl _
  last_insert-SameEffect t b none (some (insert s a)) = merge-nil s t a b
  last_insert-SameEffect t b (some p) (some (insert s a)) = SameEffect-cons p (merge-nil s t a b)
  last_insert-SameEffect t b none (some (delete n)) = swap_insert_delete t b n []
  last_insert-SameEffect t b (some (insert s a)) (some (delete n)) = merge-delete s t a b n
  last_insert-SameEffect t b (some (delete m)) (some (delete n)) =
      SameEffect-cons (delete m) (swap_insert_delete t b n [])
  last_insert-SameEffect t b (some (retain m a)) (some (delete n)) =
      SameEffect-cons (retain m a) (swap_insert_delete t b n [])
  last_insert-SameEffect t b none (some (retain n a)) = SameEffect-refl _
  last_insert-SameEffect t b (some p) (some (retain n a)) = SameEffect-refl _

  pub last_retain-SameEffect :
      (n : ℕ) (b : T) (o : Option (DeltaOperation T))
      → SameEffect (last_retain n b o) (option_list o ++ retain n b ∷ [])
  unfolding last_retain
  last_retain-SameEffect n b none = SameEffect-refl _
  last_retain-SameEffect n b (some (delete m)) = SameEffect-refl _
  last_retain-SameEffect n b (some (retain m a)) = elim (Bool-cases (attrs.beq a b)) [
    | inl same ↦ rw same (split_retain m n a a b [])
    | inr other ↦ rw other (SameEffect-refl _)
  ]
  last_retain-SameEffect n b (some (insert s a)) = SameEffect-refl _

  behind :
      (x : DeltaOperation T) (xs ys : List (DeltaOperation T))
      → SameEffect xs ys
      → SameEffect (x ∷ xs) (x ∷ ys)
  behind x xs ys p = SameEffect-cons x p

  -- Adding any operation to any delta, with the merges, the swap before a deletion and the
  -- operations of length 0 that are dropped, has the effect of appending it: the same text from
  -- every text, the same base and target lengths, and one-unit insertions in the one list exactly
  -- where in the other.
  pub add-SameEffect :
      (op : DeltaOperation T) (d : DeltaOperations T) → SameEffect (add op d).ops (d.ops ++ op ∷ [])
  unfolding add add_delete add_insert add_retain
  add-SameEffect (delete n) d = elim (Bool-cases (n == 0)) [
    | inl z ↦
        rw z (append-related SameEffect behind (delete n) (empty_delete n (ground arith)) d.ops)
    | inr p ↦ rw p (
        on_last-related SameEffect behind (last_delete n) (delete n) (last_delete-SameEffect n)
          d.ops)
  ]
  add-SameEffect (retain n a) d = elim (Bool-cases (n == 0)) [
    | inl z ↦
        rw z (append-related SameEffect behind (retain n a) (empty_retain n a (ground arith)) d.ops)
    | inr p ↦ rw p (
        on_last-related SameEffect behind (last_retain n a) (retain n a)
          (last_retain-SameEffect n a) d.ops)
  ]
  add-SameEffect (insert s a) d = elim (Bool-cases (is_nil s)) [
    | inl z ↦
        rw z
          (append-related SameEffect behind (insert s a) (empty_insert s a (is_nil→nil s z)) d.ops)
    | inr p ↦ rw p (
        on_last_two-related SameEffect behind (last_insert s a) (insert s a)
          (last_insert-SameEffect s a) d.ops)
  ]
