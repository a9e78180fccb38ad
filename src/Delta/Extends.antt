-- ===== src/Delta/Extends.antt =====
-- A delta with operations added behind its own.
use app_flowy.Prelude.{ℕ, refl, List, [], ◌∷◌, ◌++◌, append_assoc, append-nil}
use app_flowy.OtStr.{Text}
use app_flowy.Attributes.{OperationAttributes}
use app_flowy.Delta.Operation.{DeltaOperation, delete, retain, insert}
use app_flowy.Delta.Ops.{DeltaOperations, new, add_delete, add_insert, add_retain, add}
use app_flowy.Delta.Meaning.{
  base_len, target_len, SameEffect, SameEffect-refl, SameEffect-trans, SameEffect-append,
  IsWellFormed,
}
use app_flowy.Delta.Add.{add-SameEffect}
use app_flowy.Delta.Lengths.{add-IsWellFormed}

module _ {T : Type 0} ⦃attrs : OperationAttributes T⦄ where
  -- `d'` is `d` with operations of the effect of `xs` added.
  pub record Extends (d : DeltaOperations T) (xs : List (DeltaOperation T)) (d' : DeltaOperations T)
      : Type 0 where
    pub same : SameEffect d'.ops (d.ops ++ xs)
    pub well_formed : IsWellFormed d → IsWellFormed d'

  pub Extends-nil : (d : DeltaOperations T) → Extends d [] d
  Extends-nil d = record { same = rw append-nil (SameEffect-refl d.ops); well_formed = λ h. h }

  pub Extends-add : (op : DeltaOperation T) (d : DeltaOperations T) → Extends d (op ∷ []) (add op d)
  Extends-add op d = record { same = add-SameEffect op d; well_formed = add-IsWellFormed op d }

  pub Extends-delete : (n : ℕ) (d : DeltaOperations T) → Extends d (delete n ∷ []) (add_delete n d)
  unfolding add
  Extends-delete n d = Extends-add (delete n) d

  pub Extends-retain :
      (n : ℕ) (a : T) (d : DeltaOperations T) → Extends d (retain n a ∷ []) (add_retain n a d)
  unfolding add
  Extends-retain n a d = Extends-add (retain n a) d

  pub Extends-insert :
      (s : Text) (a : T) (d : DeltaOperations T) → Extends d (insert s a ∷ []) (add_insert s a d)
  unfolding add
  Extends-insert s a d = Extends-add (insert s a) d

  pub Extends-trans :
      {d e f : DeltaOperations T} (xs ys : List (DeltaOperation T))
      → Extends d xs e
      → Extends e ys f
      → Extends d (xs ++ ys) f
  Extends-trans xs ys p q = record {
    same = SameEffect-trans q.same (rw append_assoc at (SameEffect-append ys p.same));
    well_formed = λ h. q.well_formed (p.well_formed h);
  }

  pub IsWellFormed-new : IsWellFormed {T = T} new
  unfolding base_len target_len
  IsWellFormed-new = record { base = refl; target = refl; positive = tt }
