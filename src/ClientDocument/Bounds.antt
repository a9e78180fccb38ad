-- ===== src/ClientDocument/Bounds.antt =====
-- The history of a document stays within its capacity.
use app_flowy.Prelude.{
  ℕ, ◌+◌, ◌≤◌, ◌≡◌, ◌∙◌, Option, none, some, length, Bool-cases, inl, inr, ltb, is_nil, arith,
}
use app_flowy.FlowyErrors.{FlowyResult, done, failed, and_next}
use app_flowy.Interval.{Interval}
use app_flowy.OtStr.{Text}
use app_flowy.Attributes.{OperationAttributes}
use app_flowy.Delta.Ops.{DeltaOperations}
use app_flowy.Delta.Compose
use app_flowy.ClientDocument.EditHistory
use app_flowy.ClientDocument.EditHistory.{
  History, max_undoes, Fits, Taken, undo-Taken, record_undo-Fits, undo-capacity,
  record_undo-capacity,
}
use app_flowy.ClientDocument.{
  ClientDocument, computed, elapsed, record_threshold, join_last, gather_undo, commit, inverse,
  compose_operations, apply_edit, apply_some, insert, delete, format,
}

pub and_next-keeps {ℓ κ} :
    {A : Type ℓ} {B : Type κ} {S : Type 0} (P : S → Type 0) (t : FlowyResult A × S)
    (f : A → S → FlowyResult B × S)
    → P t.1
    → ((a : A) (s : S) → P s → P (f a s).1)
    → P (and_next t f).1
and_next-keeps P (failed e, s) f p keep = p
and_next-keeps P (done a, s) f p keep = keep a s p

module _ {T : Type 0} {E : Type 0} where
  abbrev pub HasBound : ClientDocument T E → Type 0
  HasBound doc = length doc.history.undoes + length doc.history.redoes ≤ max_undoes

-- With the capacity as it was set.
pub record IsBounded {T : Type 0} {E : Type 0} (doc : ClientDocument T E) : Type 0 where
  pub fits : Fits doc.history
  pub capacity : doc.history.capacity ≡ max_undoes

module _ {T : Type 0} {E : Type 0} ⦃attrs : OperationAttributes T⦄ where
  join_last-IsBounded :
      (d : DeltaOperations T) (t : Option (DeltaOperations T) × History T)
      (doc : ClientDocument T E)
      → Taken t doc.history
      → t.1.capacity ≡ max_undoes
      → IsBounded doc
      → IsBounded (join_last d t doc).1
  unfolding join_last
  join_last-IsBounded d (none, h) doc taken c b = b
  join_last-IsBounded d (some last, h) doc taken c b = record { fits = omega arith; capacity = c }

  gather_undo-IsBounded :
      (d : DeltaOperations T) (now : ℕ) (doc : ClientDocument T E)
      → IsBounded doc
      → IsBounded (gather_undo d now doc).1
  unfolding gather_undo
  gather_undo-IsBounded d now doc b =
      elim (Bool-cases (ltb (elapsed now doc.last_edit_time) record_threshold)) [
        | inl recent ↦ rw recent (
            join_last-IsBounded d (EditHistory.undo doc.history) doc (undo-Taken doc.history b.fits)
              (undo-capacity doc.history ∙ b.capacity) b)
        | inr late ↦ rw late (record { fits = b.fits; capacity = b.capacity })
      ]

  commit-IsBounded :
      (composed d : DeltaOperations T) (doc : ClientDocument T E)
      → IsBounded doc
      → IsBounded (commit composed d doc).1
  unfolding commit
  commit-IsBounded composed d doc b = elim (Bool-cases (is_nil d.ops)) [
    | inl empty ↦ rw empty (record { fits = b.fits; capacity = b.capacity })
    | inr full ↦ rw full (record {
      fits = record_undo-Fits d doc.history b.fits;
      capacity = record_undo-capacity d doc.history ∙ b.capacity;
    })
  ]

  pub compose_operations-IsBounded :
      (d : DeltaOperations T) (now : ℕ) (doc : ClientDocument T E)
      → IsBounded doc
      → IsBounded (compose_operations d now doc).1
  unfolding compose_operations
  compose_operations-IsBounded d now doc b =
      and_next-keeps IsBounded (computed (Compose.compose doc.operations d), doc)
        (λ composed s. invert_then composed s) b
        (λ composed doc' b'.
          and_next-keeps IsBounded (inverse d doc'.operations, doc')
            (λ u s. gather_then composed u s) b'
            (λ u doc'' b''.
              and_next-keeps IsBounded (gather_undo u now doc'') (λ g s. commit composed g s)
                (gather_undo-IsBounded u now doc'' b'')
                (λ g doc''' b'''. commit-IsBounded composed g doc''' b''')))
    where
      gather_then :
          DeltaOperations T
          → DeltaOperations T
          → ClientDocument T E
          → FlowyResult (Unit {0}) × ClientDocument T E
      gather_then composed u s = and_next (gather_undo u now s) (λ g s'. commit composed g s')

      invert_then :
          DeltaOperations T → ClientDocument T E → FlowyResult (Unit {0}) × ClientDocument T E
      invert_then composed s =
          and_next (inverse d s.operations, s) (λ u s'. gather_then composed u s')

  pub apply_edit-IsBounded :
      (d : FlowyResult (DeltaOperations T)) (now : ℕ) (doc : ClientDocument T E)
      → IsBounded doc
      → IsBounded (apply_edit d now doc).1
  apply_edit-IsBounded (failed e) now doc b = b
  apply_edit-IsBounded (done d) now doc b =
      and_next-keeps IsBounded (compose_operations d now doc) (λ u doc'. (done d, doc'))
        (compose_operations-IsBounded d now doc b) (λ u doc' b'. b')

  pub apply_some-IsBounded :
      (d : FlowyResult (DeltaOperations T)) (now : ℕ) (doc : ClientDocument T E)
      → IsBounded doc
      → IsBounded (apply_some d now doc).1
  apply_some-IsBounded (failed e) now doc b = b
  apply_some-IsBounded (done d) now doc b = elim (Bool-cases (is_nil d.ops)) [
    | inl empty ↦ rw empty b
    | inr full ↦ rw full (apply_edit-IsBounded (done d) now doc b)
  ]

  pub insert-IsBounded :
      (index : ℕ) (text : Text) (now : ℕ) (doc : ClientDocument T E)
      → IsBounded doc
      → IsBounded (insert index text now doc).1
  unfolding insert
  insert-IsBounded index text now doc b = apply_edit-IsBounded _ now doc b

  pub delete-IsBounded :
      (iv : Interval) (now : ℕ) (doc : ClientDocument T E)
      → IsBounded doc
      → IsBounded (delete iv now doc).1
  unfolding delete
  delete-IsBounded iv now doc b = apply_some-IsBounded _ now doc b

  pub format-IsBounded :
      (iv : Interval) (attribute : E) (now : ℕ) (doc : ClientDocument T E)
      → IsBounded doc
      → IsBounded (format iv attribute now doc).1
  unfolding format
  format-IsBounded iv attribute now doc b = apply_edit-IsBounded _ now doc b
