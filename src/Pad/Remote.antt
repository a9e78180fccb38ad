-- ===== src/Pad/Remote.antt =====
-- A pad that is loaded from its delta, and one that takes over another pad's changeset.
use app_flowy.Prelude.{◌≡◌, refl, ap, subst, append-nil, Option, none, some, [], ◌∷◌}
use app_flowy.FlowyErrors.{FlowyResult, done, failed}
use app_flowy.OtStr.{Text}
use app_flowy.Attributes.{EmptyAttributes, empty_operation_attributes}
use app_flowy.Delta.Ops.{DeltaOperations}
use app_flowy.Delta.Builder
use app_flowy.Delta.Builder.{build, new_builder}
use app_flowy.Pad.{
  Libraries, Pad, Changeset, Edited, modify, from_operations, from_revision, reset_folder,
  compose_remote_operations, insert, add_chunks,
}
use app_flowy.Pad.Delta.{IsDelta, IsPlain, compose-IsDelta}
use app_flowy.Pad.Diff.{IsDiff, add_chunks-IsDelta}
use app_flowy.Pad.InSync.{
  HasJson, IsInSync, IsHonest, Answers, IsInSync-content, Taken, modify-Taken, empty-IsPlain,
}

-- `Deserialize` undoes `Serialize`.
pub record IsRoundTrip {D : Type 0} (libs : Libraries D) : Type 0 where
  pub from_json-to_json :
      (revision : D) (json : Text)
      → libs.to_json revision ≡ some json
      → libs.from_json json ≡ some revision

-- The delta that inserts a text makes it of nothing.
pub insert-IsDelta :
    (json : Text) → IsPlain json → IsDelta (build (Builder.insert json new_builder)) [] json
insert-IsDelta json plain =
    unfold add_chunks in
    rw append-nil at (add_chunks-IsDelta (insert json ∷ []) tt (rw append-nil plain.bmp))

module _ {D : Type 0} (libs : Libraries D) (trip : IsRoundTrip libs) where
  -- A pad that is in sync is the one that is loaded from its delta.
  pub from_operations-operations :
      (pad : Pad D) → IsInSync libs pad → from_operations libs pad.operations ≡ done pad
  unfolding from_operations
  from_operations-operations pad s =
      rw
        (
          IsInSync-content libs pad s,
          trip.from_json-to_json pad.revision s.has_json.json s.has_json.serialized,
        )
        refl

  -- The pad that is made for a document is in sync with it.
  pub from_revision-IsInSync :
      (revision : D)
      → HasJson libs revision
      → (pad : Pad D) × (from_revision libs revision ≡ done pad)
        × (pad.revision ≡ revision)
        × IsInSync libs pad
  unfolding from_revision
  from_revision-IsInSync revision h = (
    record { revision = revision; operations = build (Builder.insert h.json new_builder) },
    rw h.serialized refl,
    refl,
    record { has_json = h; delta = insert-IsDelta h.json h.plain },
  )

  -- A pad that took operations over: it holds the document, and is in sync with it.
  pub record TookOver (revision : D) (result : FlowyResult Text × Pad D) : Type 0 where
    pub accepted : (checksum : Text) × (result.0 ≡ done checksum)
    pub holds : result.1.revision ≡ revision
    pub in_sync : IsInSync libs result.1

  module _ (law : IsDiff libs.diff) (pad other : Pad D) (s : IsInSync libs pad)
      (o : IsInSync libs other) (same : pad.revision ≡ other.revision) where
    same_json : s.has_json.json ≡ o.has_json.json
    same_json = cc (ap libs.to_json same, s.has_json.serialized, o.has_json.serialized)

    take_over :
        (d : DeltaOperations EmptyAttributes) (revision : D) (h : HasJson libs revision)
        → IsDelta d s.has_json.json h.json
        → TookOver revision (compose_remote_operations libs d other)
    unfolding compose_remote_operations reset_folder
    take_over d revision h makes =
        let (c, returns, all) =
          compose-IsDelta o.delta (subst (λ t. IsDelta d t h.json) same_json makes) empty-IsPlain
            o.has_json.plain h.plain in
        let after : Pad D = record { revision = revision; operations = c } in
        let sync : IsInSync libs after = record { has_json = h; delta = all } in
        let loaded : from_operations libs c ≡ done after = from_operations-operations after sync in
        rw (compose_remote_operations, returns, reset_folder, loaded)
          (record { accepted = (libs.md5 c, refl); holds = refl; in_sync = sync })

    -- Two pads that are in sync with one document; an honest edit of the first gives a changeset, and
    -- the edited document has a JSON: when the second takes over the operations of the changeset, it
    -- accepts them, holds the document of the first, and is in sync.
    pub compose_remote_operations-modify :
        (edit : D → Edited D) {c : Changeset} {after : Pad D}
        → IsHonest (edit pad.revision) pad.revision
        → HasJson libs (edit pad.revision).1
        → modify libs edit pad ≡ (done (some c), after)
        → TookOver after.revision (compose_remote_operations libs c.operations other)
    compose_remote_operations-modify edit {c} {after} honest h e =
        take_over c.operations after.revision taken.in_sync.has_json
          (answered (edit pad.revision).0 taken.answers)
      where
        taken :
            Taken libs s.has_json.json
              (edit pad.revision).0
              (edit pad.revision).1
              (done (some c), after)
        taken =
            subst (Taken libs s.has_json.json (edit pad.revision).0 (edit pad.revision).1) e
              (modify-Taken libs law pad s edit honest h)

        answered :
            (answer : FlowyResult (Option (Unit {0}))) {new : Text}
            → Answers s.has_json.json new answer (done (some c))
            → IsDelta c.operations s.has_json.json new
        answered (failed e) a = absurd a
        answered (done none) a = absurd a
        answered (done (some u)) a = a
