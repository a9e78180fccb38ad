-- ===== src/ClientDocument/View.antt =====
-- frontend/rust-lib/flowy-client-sync/src/client_document/view.rs: the first extension that applies makes
-- the delta of an edit. The view holds its extensions as trait objects, here functions; a formatting
-- is an entry of any type.
use app_flowy.Prelude.{ℕ, Option, none, some, List, [], ◌∷◌}
use app_flowy.Errors.{Result, ok, err, apply_insert_fail, apply_delete_fail, apply_format_fail}
use app_flowy.Interval
use app_flowy.Interval.{Interval}
use app_flowy.OtStr.{Text}
use app_flowy.Attributes.{OperationAttributes}
use app_flowy.Delta.Ops.{DeltaOperations}
use app_flowy.Delta.InvertDelta.{trim}

pub record ViewExtensions (T : Type 0) (E : Type 0) : Type 0 where
  pub insert_exts : List (DeltaOperations T → ℕ → Text → ℕ → Option (DeltaOperations T))
  pub format_exts : List (DeltaOperations T → Interval → E → Option (DeltaOperations T))
  pub delete_exts : List (DeltaOperations T → Interval → Option (DeltaOperations T))

module _ {T : Type 0} ⦃attrs : OperationAttributes T⦄ where
  unfoldable pub first_insert :
      List (DeltaOperations T → ℕ → Text → ℕ → Option (DeltaOperations T))
      → DeltaOperations T
      → Text
      → Interval
      → Result (DeltaOperations T)
  first_insert [] d text iv = err apply_insert_fail
  first_insert (ext ∷ exts) d text iv = elim (ext d (Interval.size iv) text iv.start) [
    | none ↦ first_insert exts d text iv
    | some made ↦ ok (trim made)
  ]

  unfoldable pub first_delete :
      List (DeltaOperations T → Interval → Option (DeltaOperations T))
      → DeltaOperations T
      → Interval
      → Result (DeltaOperations T)
  first_delete [] d iv = err apply_delete_fail
  first_delete (ext ∷ exts) d iv = elim (ext d iv) [
    | none ↦ first_delete exts d iv
    | some made ↦ ok (trim made)
  ]

module _ {T : Type 0} {E : Type 0} ⦃attrs : OperationAttributes T⦄ where
  unfoldable pub first_format :
      List (DeltaOperations T → Interval → E → Option (DeltaOperations T))
      → DeltaOperations T
      → E
      → Interval
      → Result (DeltaOperations T)
  first_format [] d attribute iv = err apply_format_fail
  first_format (ext ∷ exts) d attribute iv = elim (ext d iv attribute) [
    | none ↦ first_format exts d attribute iv
    | some made ↦ ok (trim made)
  ]

  unfoldable pub insert :
      ViewExtensions T E → DeltaOperations T → Text → Interval → Result (DeltaOperations T)
  unfolding first_insert
  insert view d text iv = first_insert view.insert_exts d text iv

  unfoldable pub delete :
      ViewExtensions T E → DeltaOperations T → Interval → Result (DeltaOperations T)
  unfolding first_delete
  delete view d iv = first_delete view.delete_exts d iv

  unfoldable pub format :
      ViewExtensions T E → DeltaOperations T → E → Interval → Result (DeltaOperations T)
  unfolding first_format
  format view d attribute iv = first_format view.format_exts d attribute iv
