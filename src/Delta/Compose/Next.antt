-- ===== src/Delta/Compose/Next.antt =====
-- What the tests of `compose` say of a cursor, by the operations that are pending.
use app_flowy.Prelude.{◌≤◌, ◌≡◌, refl, Bool, true, false, ◌||◌, List, [], ◌∷◌, arith}
use app_flowy.Attributes.{OperationAttributes}
use app_flowy.Delta.Operation.{DeltaOperation, len, is_insert, is_delete}
use app_flowy.Delta.Cursor.{OperationsCursor, has_next, is_next_insert, is_next_delete, max_iv_len}
use app_flowy.Delta.Cursor.Pending.{Pending, peek-Pending, total_len}

pub or_true : (b : Bool) → b || true ≡ true
or_true true = refl
or_true false = refl

module _ {T : Type 0} ⦃attrs : OperationAttributes T⦄ where
  module _ (c : OperationsCursor T) (op : DeltaOperation T) (ops : List (DeltaOperation T))
      (r : Pending c (op ∷ ops)) where
    pub has_next-cons : has_next c ≡ true
    unfolding has_next
    has_next-cons = rw (has_next, peek-Pending c r) refl

    pub is_next_insert-cons : is_next_insert c ≡ is_insert op
    unfolding is_next_insert
    is_next_insert-cons = rw (is_next_insert, peek-Pending c r) refl

    pub is_next_delete-cons : is_next_delete c ≡ is_delete op
    unfolding is_next_delete
    is_next_delete-cons = rw (is_next_delete, peek-Pending c r) refl

    pub fits_window : len op ≤ max_iv_len
    unfolding total_len
    fits_window = omega (arith, r.bounded)

  module _ (c : OperationsCursor T) (r : Pending c []) where
    pub has_next-nil : has_next c ≡ false
    unfolding has_next
    has_next-nil = rw (has_next, peek-Pending c r) refl

    pub is_next_insert-nil : is_next_insert c ≡ false
    unfolding is_next_insert
    is_next_insert-nil = rw (is_next_insert, peek-Pending c r) refl

    pub is_next_delete-nil : is_next_delete c ≡ false
    unfolding is_next_delete
    is_next_delete-nil = rw (is_next_delete, peek-Pending c r) refl
