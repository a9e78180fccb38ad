-- ===== src/Delta/Formats.antt =====
-- `add` of shared-lib/lib-ot/src/core/delta/ops.rs with the attributes: what a list of operations
-- writes, each character with the attributes of the operation that kept or inserted it.
use app_flowy.Prelude.{
  ℕ, ◌+◌, ◌≡◌, refl, ap, true, Option, none, some, List, [], ◌∷◌, ◌++◌, take, drop, take-add,
  append_assoc, map, map-append, option_list, ◌==◌, is_nil, Bool-cases, inl, inr, arith,
}
use app_flowy.OtStr.{Text}
use app_flowy.Attributes.{OperationAttributes}
use app_flowy.Delta.Operation.{DeltaOperation, delete, retain, insert}
use app_flowy.Delta.Ops.{
  DeltaOperations, last_delete, merge_or_new_op, last_insert, last_retain, add_delete, add_insert,
  add_retain, add,
}
use app_flowy.Delta.Meaning.{SameEffect, on_last-related, on_last_two-related, append-related}
use app_flowy.Delta.Add.{is_nil→nil, add-SameEffect}

-- A character is kept, or it is new, under attributes of which `O` can be seen.
pub data Written (O : Type 0) : Type 0 where
  kept typed : ℕ → O → Written O

module _ {T : Type 0} {O : Type 0} (look : T → O) where
  unfoldable pub formatted : List (DeltaOperation T) → Text → List (Written O)
  formatted [] s = []
  formatted (delete n ∷ ops) s = formatted ops (drop n s)
  formatted (retain n a ∷ ops) s = map (λ c. kept c (look a)) (take n s) ++ formatted ops (drop n s)
  formatted (insert t a ∷ ops) s = map (λ c. typed c (look a)) t ++ formatted ops s

  abbrev Alike : List (DeltaOperation T) → List (DeltaOperation T) → Type 0
  Alike xs ys = (s : Text) → formatted xs s ≡ formatted ys s

  -- The same effect on every text, and every written character is of the same origin and under
  -- attributes that look alike.
  pub record SameFormats (xs ys : List (DeltaOperation T)) : Type 0 where
    pub same_effect : SameEffect xs ys
    pub same_formats : (s : Text) → formatted xs s ≡ formatted ys s

  Alike-cons :
      (x : DeltaOperation T) (xs ys : List (DeltaOperation T))
      → Alike xs ys
      → Alike (x ∷ xs) (x ∷ ys)
  unfolding formatted
  Alike-cons (delete n) xs ys h s = h (drop n s)
  Alike-cons (retain n a) xs ys h s = ap (map (λ c. kept c (look a)) (take n s) ++◌) (h (drop n s))
  Alike-cons (insert t a) xs ys h s = ap (map (λ c. typed c (look a)) t ++◌) (h s)

  join_retain :
      (m n : ℕ) (a b : T)
      → look a ≡ look b
      → Alike (retain (m + n) a ∷ []) (retain m a ∷ retain n b ∷ [])
  unfolding formatted
  join_retain m n a b e s = rw (← e, take-add m n s, map-append, append_assoc) refl

  join_insert :
      (s t : Text) (a b : T) (ops : List (DeltaOperation T))
      → look a ≡ look b
      → Alike (insert (s ++ t) a ∷ ops) (insert s a ∷ insert t b ∷ ops)
  unfolding formatted
  join_insert s t a b ops e u = rw (← e, map-append, append_assoc) refl

  last_delete-Alike :
      (n : ℕ) (o : Option (DeltaOperation T))
      → Alike (last_delete n o) (option_list o ++ delete n ∷ [])
  unfolding last_delete formatted
  last_delete-Alike n none s = refl
  last_delete-Alike n (some (delete m)) s = refl
  last_delete-Alike n (some (retain m a)) s = refl
  last_delete-Alike n (some (insert t a)) s = refl

  module _ ⦃attrs : OperationAttributes T⦄
      (law : (a b : T) → attrs.beq a b ≡ true → look a ≡ look b) where
    merge-nil :
        (s t : Text) (a b : T) → Alike (merge_or_new_op s a t b []) (insert s a ∷ insert t b ∷ [])
    unfolding merge_or_new_op
    merge-nil s t a b u = elim (Bool-cases (attrs.beq a b)) [
      | inl same ↦ rw same (join_insert s t a b [] (law a b same) u)
      | inr other ↦ rw other refl
    ]

    merge-delete :
        (s t : Text) (a b : T) (n : ℕ)
        → Alike (merge_or_new_op s a t b (delete n ∷ [])) (insert s a ∷ delete n ∷ insert t b ∷ [])
    unfolding merge_or_new_op formatted
    merge-delete s t a b n u = elim (Bool-cases (attrs.beq a b)) [
      | inl same ↦ rw same (join_insert s t a b (delete n ∷ []) (law a b same) u)
      | inr other ↦ rw other refl
    ]

    last_insert-Alike :
        (t : Text) (b : T) (p o : Option (DeltaOperation T))
        → Alike (last_insert t b p o) (option_list p ++ option_list o ++ insert t b ∷ [])
    unfolding last_insert formatted
    last_insert-Alike t b none none s = refl
    last_insert-Alike t b (some p) none s = refl
    last_insert-Alike t b none (some (insert u a)) s = merge-nil u t a b s
    last_insert-Alike t b (some p) (some (insert u a)) s = Alike-cons p _ _ (merge-nil u t a b) s
    last_insert-Alike t b none (some (delete n)) s = refl
    last_insert-Alike t b (some (insert u a)) (some (delete n)) s = merge-delete u t a b n s
    last_insert-Alike t b (some (delete m)) (some (delete n)) s = refl
    last_insert-Alike t b (some (retain m a)) (some (delete n)) s = refl
    last_insert-Alike t b none (some (retain n a)) s = refl
    last_insert-Alike t b (some p) (some (retain n a)) s = refl

    last_retain-Alike :
        (n : ℕ) (b : T) (o : Option (DeltaOperation T))
        → Alike (last_retain n b o) (option_list o ++ retain n b ∷ [])
    unfolding last_retain
    last_retain-Alike n b none s = refl
    last_retain-Alike n b (some (delete m)) s = refl
    last_retain-Alike n b (some (retain m a)) s = elim (Bool-cases (attrs.beq a b)) [
      | inl same ↦ rw same (join_retain m n a b (law a b same) s)
      | inr other ↦ rw other refl
    ]
    last_retain-Alike n b (some (insert t a)) s = refl

    add-Alike :
        (op : DeltaOperation T) (d : DeltaOperations T) → Alike (add op d).ops (d.ops ++ op ∷ [])
    unfolding add add_delete add_insert add_retain formatted
    add-Alike (delete n) d = elim (Bool-cases (n == 0)) [
      | inl z ↦ rw z (append-related Alike Alike-cons (delete n) (λ s. refl) d.ops)
      | inr p ↦
          rw p (
            on_last-related Alike Alike-cons (last_delete n) (delete n) (last_delete-Alike n) d.ops)
    ]
    add-Alike (retain n a) d = elim (Bool-cases (n == 0)) [
      | inl z ↦
          let e : n ≡ 0 = ground arith in
          rw z (append-related Alike Alike-cons (retain n a) (λ s. rw e refl) d.ops)
      | inr p ↦ rw p (
          on_last-related Alike Alike-cons (last_retain n a) (retain n a) (last_retain-Alike n a)
            d.ops)
    ]
    add-Alike (insert t a) d = elim (Bool-cases (is_nil t)) [
      | inl z ↦
          rw z (append-related Alike Alike-cons (insert t a) (λ s. rw (is_nil→nil t z) refl) d.ops)
      | inr p ↦ rw p (
          on_last_two-related Alike Alike-cons (last_insert t a) (insert t a)
            (last_insert-Alike t a) d.ops)
    ]

    -- For what can be seen of attributes that compare as equal: adding any operation to any delta,
    -- with the merges, the swap before a deletion and the operations of length 0 that are dropped,
    -- has the effect of appending it. From every text the same characters are written, each kept or
    -- inserted under attributes that look the same, and the lengths are the same.
    pub add-SameFormats :
        (op : DeltaOperation T) (d : DeltaOperations T)
        → SameFormats (add op d).ops (d.ops ++ op ∷ [])
    add-SameFormats op d = record {
      same_effect = add-SameEffect op d;
      same_formats = add-Alike op d;
    }
