-- ===== src/ClientDocument/Runs.antt =====
-- The history of a document over any calls of its methods.
use app_flowy.Prelude.{
  ℕ, ◌+◌, ◌≤◌, ◌≡◌, ◌∙◌, refl, Option, none, some, List, [], ◌∷◌, length, length-append, Bool-cases,
  inl, inr, is_nil, arith,
}
use app_flowy.FlowyErrors.{FlowyResult, done, failed, and_next}
use app_flowy.Interval
use app_flowy.Interval.{Interval}
use app_flowy.OtStr.{Text}
use app_flowy.Attributes.{OperationAttributes}
use app_flowy.Delta.Ops.{DeltaOperations}
use app_flowy.Delta.Compose
use app_flowy.ClientDocument.EditHistory
use app_flowy.ClientDocument.EditHistory.{
  History, add_undo, add_redo, max_undoes, Taken, undo-Taken, redo-Taken, undo-capacity,
  redo-capacity,
}
use app_flowy.ClientDocument.View.{ViewExtensions}
use app_flowy.ClientDocument.{
  ClientDocument, computed, from_operations, validate_interval, compose_operations, insert, delete,
  format, insert_some, delete_some, replace, invert, undone, undo_with, undo, redone, redo_with,
  redo,
}
use app_flowy.ClientDocument.Bounds.{
  and_next-keeps, HasBound, IsBounded, apply_edit-IsBounded, compose_operations-IsBounded,
  insert-IsBounded, delete-IsBounded, format-IsBounded,
}

-- The calls that edit a document.
pub data Call (T : Type 0) (E : Type 0) : Type 0 where
  compose_call : DeltaOperations T → ℕ → Call T E
  insert_call : ℕ → Text → ℕ → Call T E
  delete_call : Interval → ℕ → Call T E
  format_call : Interval → E → ℕ → Call T E
  replace_call : Interval → Text → ℕ → Call T E
  undo_call redo_call : Call T E

module _ {T : Type 0} {E : Type 0} ⦃attrs : OperationAttributes T⦄ where
  -- The document behind a call, whether it fails or not.
  unfoldable pub step : Call T E → ClientDocument T E → ClientDocument T E
  step (compose_call d now) doc = (compose_operations d now doc).1
  step (insert_call index text now) doc = (insert index text now doc).1
  step (delete_call iv now) doc = (delete iv now doc).1
  step (format_call iv attribute now) doc = (format iv attribute now doc).1
  step (replace_call iv text now) doc = (replace iv text now doc).1
  step undo_call doc = (undo doc).1
  step redo_call doc = (redo doc).1

  unfoldable pub run : List (Call T E) → ClientDocument T E → ClientDocument T E
  unfolding step
  run [] doc = doc
  run (c ∷ cs) doc = run cs (step c doc)

  undone-IsBounded :
      (d : DeltaOperations T) (r : FlowyResult (DeltaOperations T × DeltaOperations T))
      (doc : ClientDocument T E)
      → length doc.history.undoes + length doc.history.redoes + 1 ≤ doc.history.capacity
      → doc.history.capacity ≡ max_undoes
      → IsBounded (undone d r doc).1
  unfolding undone add_redo
  undone-IsBounded d (failed e) doc room c = record { fits = omega arith; capacity = c }
  undone-IsBounded d (done (new_operations, inverted)) doc room c = record {
    fits = omega (arith, length-append doc.history.redoes (inverted ∷ []));
    capacity = c;
  }

  undo_with-IsBounded :
      (t : Option (DeltaOperations T) × History T) (doc : ClientDocument T E)
      → Taken t doc.history
      → t.1.capacity ≡ max_undoes
      → IsBounded doc
      → IsBounded (undo_with t doc).1
  unfolding undo_with
  undo_with-IsBounded (none, h) doc taken c b = b
  undo_with-IsBounded (some d, h) doc taken c b =
      undone-IsBounded d (invert d doc) (record doc { history = h }) taken c

  redone-IsBounded :
      (d : DeltaOperations T) (r : FlowyResult (DeltaOperations T × DeltaOperations T))
      (doc : ClientDocument T E)
      → length doc.history.undoes + length doc.history.redoes + 1 ≤ doc.history.capacity
      → doc.history.capacity ≡ max_undoes
      → IsBounded (redone d r doc).1
  unfolding redone add_undo
  redone-IsBounded d (failed e) doc room c = record { fits = omega arith; capacity = c }
  redone-IsBounded d (done (new_operations, inverted)) doc room c = record {
    fits = omega (arith, length-append doc.history.undoes (inverted ∷ []));
    capacity = c;
  }

  redo_with-IsBounded :
      (t : Option (DeltaOperations T) × History T) (doc : ClientDocument T E)
      → Taken t doc.history
      → t.1.capacity ≡ max_undoes
      → IsBounded doc
      → IsBounded (redo_with t doc).1
  unfolding redo_with
  redo_with-IsBounded (none, h) doc taken c b = b
  redo_with-IsBounded (some d, h) doc taken c b =
      redone-IsBounded d (invert d doc) (record doc { history = h }) taken c

  insert_some-IsBounded :
      (iv : Interval) (text : Text) (now : ℕ) (doc : ClientDocument T E)
      → IsBounded doc
      → IsBounded (insert_some iv text now doc).1
  unfolding insert_some
  insert_some-IsBounded iv text now doc b = elim (Bool-cases (is_nil text)) [
    | inl empty ↦ rw empty b
    | inr full ↦ rw full (apply_edit-IsBounded _ now doc b)
  ]

  delete_some-IsBounded :
      (d : DeltaOperations T) (iv : Interval) (now : ℕ) (doc : ClientDocument T E)
      → IsBounded doc
      → IsBounded (delete_some d iv now doc).1
  unfolding delete_some
  delete_some-IsBounded d iv now doc b = elim (Bool-cases (Interval.is_empty iv)) [
    | inl empty ↦ rw empty b
    | inr full ↦ rw full (
        and_next-keeps IsBounded (delete iv now doc)
          (λ deleted doc'. (computed (Compose.compose d deleted), doc'))
          (delete-IsBounded iv now doc b) (λ deleted doc' b'. b'))
  ]

  replace-IsBounded :
      (iv : Interval) (text : Text) (now : ℕ) (doc : ClientDocument T E)
      → IsBounded doc
      → IsBounded (replace iv text now doc).1
  unfolding replace
  replace-IsBounded iv text now doc b =
      and_next-keeps IsBounded (validate_interval doc.operations iv, doc)
        (λ u s. and_next (insert_some iv text now s) (λ d s'. delete_some d iv now s')) b
        (λ u doc' b'.
          and_next-keeps IsBounded (insert_some iv text now doc') (λ d s'. delete_some d iv now s')
            (insert_some-IsBounded iv text now doc' b')
            (λ d doc'' b''. delete_some-IsBounded d iv now doc'' b''))

  step-IsBounded :
      (c : Call T E) (doc : ClientDocument T E) → IsBounded doc → IsBounded (step c doc)
  unfolding step undo redo
  step-IsBounded (compose_call d now) doc b = compose_operations-IsBounded d now doc b
  step-IsBounded (insert_call index text now) doc b = insert-IsBounded index text now doc b
  step-IsBounded (delete_call iv now) doc b = delete-IsBounded iv now doc b
  step-IsBounded (format_call iv attribute now) doc b = format-IsBounded iv attribute now doc b
  step-IsBounded (replace_call iv text now) doc b = replace-IsBounded iv text now doc b
  step-IsBounded undo_call doc b =
      undo_with-IsBounded (EditHistory.undo doc.history) doc (undo-Taken doc.history b.fits)
        (undo-capacity doc.history ∙ b.capacity) b
  step-IsBounded redo_call doc b =
      redo_with-IsBounded (EditHistory.redo doc.history) doc (redo-Taken doc.history b.fits)
        (redo-capacity doc.history ∙ b.capacity) b

  run_from-IsBounded :
      (cs : List (Call T E)) (doc : ClientDocument T E) → IsBounded doc → IsBounded (run cs doc)
  unfolding run
  run_from-IsBounded [] doc b = b
  run_from-IsBounded (c ∷ cs) doc b = run_from-IsBounded cs (step c doc) (step-IsBounded c doc b)

  -- For any view, after any calls of the editing methods on a new document, at any times and with any
  -- results, there are at most 20 entries to undo and to redo together.
  pub run-HasBound :
      (view : ViewExtensions T E) (d : DeltaOperations T) (cs : List (Call T E))
      → HasBound (run cs (from_operations view d))
  unfolding from_operations EditHistory.new
  run-HasBound view d cs =
      let b =
        run_from-IsBounded cs (from_operations view d)
          (record { fits = omega arith; capacity = refl }) in
      let fits = b.fits in let capacity = b.capacity in omega arith
