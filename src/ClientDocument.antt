-- ===== src/ClientDocument.antt =====
-- `ClientDocument` of frontend/rust-lib/flowy-client-sync/src/client_document/document_pad.rs: a rich text
-- as a delta, edited through the view, with its history. A method returns its result and the document that
-- it leaves, which it changes also where it fails. The clock is an argument, in milliseconds.
pub mod EditHistory
pub mod View
pub mod Bounds
pub mod Runs
pub mod Extensions
use app_flowy.Prelude.{
  ℕ, ◌+◌, ◌-◌, ◌%◌, ◌^◌, Bool, true, false, Option, none, some, ◌∷◌, ltb, is_nil, if◌then◌else◌,
}
use app_flowy.Errors.{Result, ok, err}
use app_flowy.FlowyErrors.{
  FlowyResult, done, failed, and_then, and_next, from_ot, panicked, out_of_bound, undo_fail,
  redo_fail,
}
use app_flowy.Interval
use app_flowy.Interval.{Interval, interval}
use app_flowy.OtStr.{Text}
use app_flowy.Attributes.{OperationAttributes}
use app_flowy.Delta.Ops.{DeltaOperations}
use app_flowy.Delta.Compose
use app_flowy.Delta.InvertDelta
use app_flowy.ClientDocument.EditHistory
use app_flowy.ClientDocument.EditHistory.{History}
use app_flowy.ClientDocument.View
use app_flowy.ClientDocument.View.{ViewExtensions}

-- Milliseconds, `RECORD_THRESHOLD` of view.rs.
abbrev pub record_threshold : ℕ
record_threshold = 400

pub record ClientDocument (T : Type 0) (E : Type 0) : Type 0 where
  pub operations : DeltaOperations T
  pub history : History T
  pub view : ViewExtensions T E
  pub last_edit_time : ℕ
  -- Whether there is a channel to notify, and how often it was.
  pub notify : Bool
  pub notified : ℕ

pub record UndoResult (T : Type 0) : Type 0 where
  pub operations : DeltaOperations T

-- A computation that ends with a result.
abbrev pub computed {ℓ} : {A : Type ℓ} → Option (Result A) → FlowyResult A
computed none = failed panicked
computed (some r) = from_ot r

-- `usize` subtraction, which wraps.
unfoldable pub elapsed : ℕ → ℕ → ℕ
elapsed now last_edit_time = (now + 2 ^ 64 - last_edit_time) % 2 ^ 64

-- `unwrap` of what the view makes.
abbrev pub unwrapped {ℓ} : {A : Type ℓ} → Result A → FlowyResult A
unwrapped (err e) = failed panicked
unwrapped (ok a) = done a

module _ {T : Type 0} where
  unfoldable pub validate_interval : DeltaOperations T → Interval → FlowyResult (Unit {0})
  validate_interval d iv = if ltb d.utf16_target_len iv.end then failed out_of_bound else done tt

module _ {T : Type 0} ⦃attrs : OperationAttributes T⦄ where
  unfoldable pub inverse : DeltaOperations T → DeltaOperations T → FlowyResult (DeltaOperations T)
  inverse d other = elim (InvertDelta.invert d other) [ none ↦ failed panicked | some i ↦ done i ]

module _ {T : Type 0} {E : Type 0} where
  unfoldable pub from_operations : ViewExtensions T E → DeltaOperations T → ClientDocument T E
  from_operations view d = record {
    operations = d;
    history = EditHistory.new;
    view = view;
    last_edit_time = 0;
    notify = false;
    notified = 0;
  }

  unfoldable pub set_notify : ClientDocument T E → ClientDocument T E
  set_notify doc = record doc { notify = true }

  unfoldable pub set_operations : DeltaOperations T → ClientDocument T E → ClientDocument T E
  set_operations d doc = record doc {
    operations = d;
    notified = if doc.notify then doc.notified + 1 else doc.notified;
  }

  unfoldable pub can_undo : ClientDocument T E → Bool
  can_undo doc = EditHistory.can_undo doc.history

  unfoldable pub can_redo : ClientDocument T E → Bool
  can_redo doc = EditHistory.can_redo doc.history

module _ {T : Type 0} {E : Type 0} ⦃attrs : OperationAttributes T⦄ where
  -- The undoing of an edit, behind the one before where that is taken off the history.
  unfoldable pub join_last :
      DeltaOperations T
      → Option (DeltaOperations T) × History T
      → ClientDocument T E
      → FlowyResult (DeltaOperations T) × ClientDocument T E
  join_last undo_operations (none, h) doc = (done undo_operations, doc)
  join_last undo_operations (some last_operation, h) doc =
      (computed (Compose.compose undo_operations last_operation), record doc { history = h })

  unfoldable pub gather_undo :
      DeltaOperations T
      → ℕ
      → ClientDocument T E
      → FlowyResult (DeltaOperations T) × ClientDocument T E
  unfolding join_last
  gather_undo undo_operations now doc =
      if ltb (elapsed now doc.last_edit_time) record_threshold
      then join_last undo_operations (EditHistory.undo doc.history) doc
      else (done undo_operations, record doc { last_edit_time = now })

  -- The history gets what undoes the edit, and the document the new operations.
  unfoldable pub commit :
      DeltaOperations T
      → DeltaOperations T
      → ClientDocument T E
      → FlowyResult (Unit {0}) × ClientDocument T E
  unfolding set_operations
  commit composed undo_operations doc =
      let h =
        if is_nil undo_operations.ops
        then doc.history
        else EditHistory.record_undo undo_operations doc.history in
      (done tt, set_operations composed (record doc { history = h }))

  unfoldable pub compose_operations :
      DeltaOperations T → ℕ → ClientDocument T E → FlowyResult (Unit {0}) × ClientDocument T E
  unfolding gather_undo commit inverse
  compose_operations d now doc =
      and_next (computed (Compose.compose doc.operations d), doc)
        (λ composed doc'.
          and_next (inverse d doc'.operations, doc')
            (λ undo_operations doc''.
              and_next (gather_undo undo_operations now doc'')
                (λ gathered doc'''. commit composed gathered doc''')))

  -- The edit that the view makes, applied.
  abbrev pub apply_edit :
      FlowyResult (DeltaOperations T)
      → ℕ
      → ClientDocument T E
      → FlowyResult (DeltaOperations T) × ClientDocument T E
  apply_edit (failed e) now doc = (failed e, doc)
  apply_edit (done d) now doc = and_next (compose_operations d now doc) (λ u doc'. (done d, doc'))

  unfoldable pub insert :
      ℕ → Text → ℕ → ClientDocument T E → FlowyResult (DeltaOperations T) × ClientDocument T E
  unfolding validate_interval
  insert index text now doc =
      let iv = interval index index in
      apply_edit
        (and_then (validate_interval doc.operations iv)
          (λ u. from_ot (View.insert doc.view doc.operations text iv)))
        now doc

  -- An edit that is empty is not applied.
  abbrev pub apply_some :
      FlowyResult (DeltaOperations T)
      → ℕ
      → ClientDocument T E
      → FlowyResult (DeltaOperations T) × ClientDocument T E
  apply_some (failed e) now doc = (failed e, doc)
  apply_some (done d) now doc = if is_nil d.ops then (done d, doc) else apply_edit (done d) now doc

  unfoldable pub delete :
      Interval → ℕ → ClientDocument T E → FlowyResult (DeltaOperations T) × ClientDocument T E
  unfolding validate_interval
  delete iv now doc =
      apply_some
        (and_then (validate_interval doc.operations iv)
          (λ u. from_ot (View.delete doc.view doc.operations iv)))
        now doc

  unfoldable pub format :
      Interval → E → ℕ → ClientDocument T E → FlowyResult (DeltaOperations T) × ClientDocument T E
  unfolding validate_interval
  format iv attribute now doc =
      apply_edit
        (and_then (validate_interval doc.operations iv)
          (λ u. unwrapped (View.format doc.view doc.operations attribute iv)))
        now doc

  -- The text of a replacement, where there is some.
  unfoldable pub insert_some :
      Interval
      → Text
      → ℕ
      → ClientDocument T E
      → FlowyResult (DeltaOperations T) × ClientDocument T E
  insert_some iv text now doc =
      if is_nil text
      then (done app_flowy.Delta.Ops.new, doc)
      else apply_edit (from_ot (View.insert doc.view doc.operations text iv)) now doc

  -- What it replaces, where there is some, behind the delta of the text.
  unfoldable pub delete_some :
      DeltaOperations T
      → Interval
      → ℕ
      → ClientDocument T E
      → FlowyResult (DeltaOperations T) × ClientDocument T E
  unfolding delete
  delete_some d iv now doc =
      if Interval.is_empty iv
      then (done d, doc)
      else and_next (delete iv now doc)
          (λ deleted doc'. (computed (Compose.compose d deleted), doc'))

  unfoldable pub replace :
      Interval
      → Text
      → ℕ
      → ClientDocument T E
      → FlowyResult (DeltaOperations T) × ClientDocument T E
  unfolding validate_interval insert_some delete_some
  replace iv text now doc =
      and_next (validate_interval doc.operations iv, doc)
        (λ u doc'. and_next (insert_some iv text now doc') (λ d doc''. delete_some d iv now doc''))

  -- The document with the operations composed, and what inverts them on it.
  unfoldable pub invert :
      DeltaOperations T → ClientDocument T E → FlowyResult (DeltaOperations T × DeltaOperations T)
  unfolding inverse
  invert d doc = and_then (computed (Compose.compose doc.operations d)) (λ new_operations.
      and_then (inverse d doc.operations) (λ inverted. done (new_operations, inverted)))

  -- The inverted operations are set, and what inverts them goes on the other stack.
  unfoldable pub undone :
      DeltaOperations T
      → FlowyResult (DeltaOperations T × DeltaOperations T)
      → ClientDocument T E
      → FlowyResult (UndoResult T) × ClientDocument T E
  unfolding set_operations
  undone d (failed e) doc = (failed e, doc)
  undone d (done (new_operations, inverted)) doc =
      let set = set_operations new_operations doc in
      (
        done (record { operations = d }),
        record set { history = EditHistory.add_redo inverted set.history },
      )

  unfoldable pub redone :
      DeltaOperations T
      → FlowyResult (DeltaOperations T × DeltaOperations T)
      → ClientDocument T E
      → FlowyResult (UndoResult T) × ClientDocument T E
  unfolding set_operations
  redone d (failed e) doc = (failed e, doc)
  redone d (done (new_operations, inverted)) doc =
      let set = set_operations new_operations doc in
      (
        done (record { operations = d }),
        record set { history = EditHistory.add_undo inverted set.history },
      )

  -- With the entry that was taken off the history.
  unfoldable pub undo_with :
      Option (DeltaOperations T) × History T
      → ClientDocument T E
      → FlowyResult (UndoResult T) × ClientDocument T E
  unfolding invert undone
  undo_with (none, h) doc = (failed undo_fail, doc)
  undo_with (some d, h) doc = undone d (invert d doc) (record doc { history = h })

  unfoldable pub undo : ClientDocument T E → FlowyResult (UndoResult T) × ClientDocument T E
  unfolding undo_with
  undo doc = undo_with (EditHistory.undo doc.history) doc

  unfoldable pub redo_with :
      Option (DeltaOperations T) × History T
      → ClientDocument T E
      → FlowyResult (UndoResult T) × ClientDocument T E
  unfolding invert redone
  redo_with (none, h) doc = (failed redo_fail, doc)
  redo_with (some d, h) doc = redone d (invert d doc) (record doc { history = h })

  unfoldable pub redo : ClientDocument T E → FlowyResult (UndoResult T) × ClientDocument T E
  unfolding redo_with
  redo doc = redo_with (EditHistory.redo doc.history) doc
