-- ===== src/FlowyErrors.antt =====
-- frontend/rust-lib/flowy-error and shared-lib/flowy-sync: the errors that the code of the revisions
-- and of the documents makes, and those that it passes on. Their texts are left out.
use app_flowy.Errors.{OtErrorCode, Result, ok, err}

pub data FlowyError : Type 0 where
  internal_error out_of_bound undo_fail redo_fail record_not_found : FlowyError
  can_not_delete_primary_field unexpected_empty_revision : FlowyError
  -- No error value: the thread panics, or an iterator does not end.
  panicked : FlowyError
  ot_error : OtErrorCode → FlowyError

pub data FlowyResult {ℓ} (A : Type ℓ) : Type ℓ where
  failed : FlowyError → FlowyResult A
  done : A → FlowyResult A

module _ {ℓ κ} {A : Type ℓ} {B : Type κ} where
  -- `result?` in front of what goes on with the value.
  abbrev pub and_then : FlowyResult A → (A → FlowyResult B) → FlowyResult B
  and_then (failed e) continue = failed e
  and_then (done a) continue = continue a

-- What is left of a result and a state to go on with.
abbrev pub and_next {ℓ κ} :
    {A : Type ℓ} {B : Type κ} {S : Type 0}
    → FlowyResult A × S
    → (A → S → FlowyResult B × S)
    → FlowyResult B × S
and_next (failed e, s) continue = (failed e, s)
and_next (done a, s) continue = continue a s

-- `From<OTError>`
abbrev pub from_ot {ℓ} : {A : Type ℓ} → Result A → FlowyResult A
from_ot (err e) = failed (ot_error e)
from_ot (ok a) = done a
