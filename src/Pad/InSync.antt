-- ===== src/Pad/InSync.antt =====
-- The invariant of the pads: the content of the delta is the JSON of the document, and the delta can
-- be composed further.
use app_flowy.Prelude.{◌≡◌, ◌≢◌, refl, ◌⊎◌, inl, inr, Option, none, some, [], arith}
use app_flowy.Errors.{ok}
use app_flowy.FlowyErrors.{FlowyResult, done, failed}
use app_flowy.OtStr.{Text}
use app_flowy.Attributes.{EmptyAttributes, empty_operation_attributes}
use app_flowy.Delta.Ops.{DeltaOperations, content}
use app_flowy.Delta.Compose.{compose}
use app_flowy.Pad.{Libraries, Pad, Changeset, Edited, take_up, compare_json, modified, modify}
use app_flowy.Pad.Delta.{IsDelta, IsDelta-apply, IsPlain, compose-IsDelta}
use app_flowy.Pad.Diff.{IsDiff, cal_diff-IsDelta}

-- The document has a JSON of characters of one code unit, which is not too long.
pub record HasJson {D : Type 0} (libs : Libraries D) (revision : D) : Type 0 where
  pub json : Text
  pub serialized : libs.to_json revision ≡ some json
  pub plain : IsPlain json
  pub not_empty : json ≢ []

pub record IsInSync {D : Type 0} (libs : Libraries D) (pad : Pad D) : Type 0 where
  pub has_json : HasJson libs pad.revision
  pub delta : IsDelta pad.operations [] has_json.json

-- The edit leaves the document as it is unless it says that it changed it.
abbrev pub IsHonest : {D : Type 0} → Edited D → D → Type 0
IsHonest r d = (r.0 ≡ done (some tt)) ⊎ (r.1 ≡ d)

-- The pad answers as the edit did, with a changeset that makes the new text of the old one.
abbrev pub Answers :
    Text → Text → FlowyResult (Option (Unit {0})) → FlowyResult (Option Changeset) → Type 0
Answers old new (failed e) (failed e') = e ≡ e'
Answers old new (failed e) (done o) = ⊥
Answers old new (done o) (failed e) = ⊥
Answers old new (done none) (done none) = Unit
Answers old new (done none) (done (some c)) = ⊥
Answers old new (done (some _)) (done none) = ⊥
Answers old new (done (some _)) (done (some c)) = IsDelta c.operations old new

pub empty-IsPlain : IsPlain []
empty-IsPlain = record { bmp = tt; short = omega arith }

module _ {D : Type 0} (libs : Libraries D) where
  pub IsInSync-content :
      (pad : Pad D) (s : IsInSync libs pad) → content pad.operations ≡ ok s.has_json.json
  unfolding content
  IsInSync-content pad s = IsDelta-apply s.delta empty-IsPlain

  pub take_up-some :
      (pad : Pad D) (d : DeltaOperations EmptyAttributes) {c : DeltaOperations EmptyAttributes}
      → compose pad.operations d ≡ some (ok c)
      → take_up libs (some d) pad
        ≡ (done (some (record { operations = d; md5 = libs.md5 c })), record pad { operations = c })
  unfolding take_up
  take_up-some pad d e = rw (take_up, e) refl

  -- What an edit makes of a pad: the pad's new state, and its answer.
  pub record Taken (s : Text) (answer : FlowyResult (Option (Unit {0}))) (revision : D)
      (result : FlowyResult (Option Changeset) × Pad D) : Type 0 where
    pub in_sync : IsInSync libs result.1
    pub holds : result.1.revision ≡ revision
    pub answers : Answers s in_sync.has_json.json answer result.0

  module _ (law : IsDiff libs.diff) (pad : Pad D) (s : IsInSync libs pad) where
    changed :
        (revision : D) (h : HasJson libs revision)
        → Taken s.has_json.json
            (done (some tt))
            revision
            (modified libs (done (some tt), revision) pad)
    unfolding modified compare_json
    changed revision h =
        let (d, found, makes) =
          cal_diff-IsDelta s.has_json.json h.json law s.has_json.plain h.plain h.not_empty in
        let (c, returns, all) =
          compose-IsDelta s.delta makes empty-IsPlain s.has_json.plain h.plain in
        rw
          (
            s.has_json.serialized,
            h.serialized,
            found,
            take_up-some (record pad { revision = revision }) d returns,
          )
          (record { in_sync = record { has_json = h; delta = all }; holds = refl; answers = makes })

    unchanged :
        (answer : FlowyResult (Option (Unit {0})))
        → HasJson libs pad.revision
        → (answer ≡ done (some tt)) ⊎ (pad.revision ≡ pad.revision)
        → Taken s.has_json.json answer pad.revision (modified libs (answer, pad.revision) pad)
    unfolding modified
    unchanged (failed e) h k = record { in_sync = s; holds = refl; answers = refl }
    unchanged (done none) h k = record { in_sync = s; holds = refl; answers = tt }
    unchanged (done (some u)) h k = changed pad.revision h

    -- For an honest edit of a pad that is in sync, and a new document with a JSON: the pad then holds the
    -- document that the edit makes, is in sync again, and answers as the edit did; where the edit
    -- changed the document there is a changeset, and it makes the new JSON of the old one.
    pub modify-Taken :
        (edit : D → Edited D)
        → IsHonest (edit pad.revision) pad.revision
        → HasJson libs (edit pad.revision).1
        → Taken s.has_json.json (edit pad.revision).0 (edit pad.revision).1 (modify libs edit pad)
    unfolding modify
    modify-Taken edit honest h = by_answer (edit pad.revision) honest h
      where
        by_answer :
            (r : Edited D)
            → (r.0 ≡ done (some tt)) ⊎ (r.1 ≡ pad.revision)
            → HasJson libs r.1
            → Taken s.has_json.json r.0 r.1 (modified libs r pad)
        by_answer r (inl e) h = rw e (changed r.1 h)
        by_answer r (inr e) h = rw e (unchanged r.0 s.has_json (inr refl))
