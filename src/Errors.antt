-- ===== src/Errors.antt =====
-- The errors of lib-ot, shared-lib/lib-ot/src/errors.rs, and the `?` operator on its results. The
-- message of an error is dropped: no code of the modelled parts reads it.
pub data OtErrorCode : Type 0 where
  incompatible_length apply_insert_fail apply_delete_fail apply_format_fail : OtErrorCode
  compose_operation_fail interval_out_of_bound undo_fail redo_fail serde_error : OtErrorCode
  duplicated_revision revision_id_conflict internal path_not_found path_is_empty : OtErrorCode
  invalid_path record_not_found : OtErrorCode

pub data Result {ℓ} (A : Type ℓ) : Type ℓ where
  err : OtErrorCode → Result A
  ok : A → Result A

-- `result?` in front of what goes on with the value.
module _ {ℓ κ} {A : Type ℓ} {B : Type κ} where
  infixl 5 ◌>>=◌
  abbrev pub ◌>>=◌ : Result A → (A → Result B) → Result B
  err code >>= continue = err code
  ok value >>= continue = continue value
