-- ===== src/Pad/Edits.antt =====
-- The methods that are `modify` on a careful edit: what they keep of the document and of its delta.
use app_flowy.Prelude.{◌≡◌, refl, sym, ap, subst, ◌∙◌, inl, inr, Option, none, some, arith}
use app_flowy.FlowyErrors.{FlowyError, FlowyResult, done, failed}
use app_flowy.OtStr.{Text}
use app_flowy.Attributes.{EmptyAttributes}
use app_flowy.Delta.Ops.{DeltaOperations}
use app_flowy.Pad.{Libraries, Pad, Changeset, Edited, take_up, compare_json, modified, modify}
use app_flowy.Pad.Diff.{IsDiff}
use app_flowy.Pad.Careful.{Careful}
use app_flowy.Pad.InSync.{HasJson, IsInSync, Answers, Taken, modify-Taken}

module _ {D : Type 0} (libs : Libraries D) where
  revision-take_up :
      (o : Option (DeltaOperations EmptyAttributes)) (pad : Pad D)
      → (take_up libs o pad).1.revision ≡ pad.revision
  unfolding take_up
  revision-take_up none pad = refl
  revision-take_up (some d) pad = ground arith

  -- Whatever becomes of the delta, the document is the one that the edit leaves.
  pub revision-modify :
      (edit : D → Edited D) (pad : Pad D)
      → (modify libs edit pad).1.revision ≡ (edit pad.revision).1
  unfolding modify
  revision-modify edit pad = by_answer (edit pad.revision)
    where
      compared :
          (old new : Option Text) (pad : Pad D)
          → (compare_json libs old new pad).1.revision ≡ pad.revision
      compared none new pad = unfold compare_json in refl
      compared (some old) none pad = unfold compare_json in refl
      compared (some old) (some new) pad = unfold compare_json in revision-take_up _ pad

      by_answer : (r : Edited D) → (modified libs r pad).1.revision ≡ r.1
      by_answer (failed e, d) = unfold modified in refl
      by_answer (done none, d) = unfold modified in refl
      by_answer (done (some u), d) = unfold modified in compared _ _ (record pad { revision = d })

  -- A method's answer and pad are those of `modify` on a careful edit.
  pub record IsEdit (P : D → Type 0) (pad : Pad D) (result : FlowyResult (Option Changeset) × Pad D)
      : Type 0 where
    pub edit : D → Edited D
    pub is_modify : result ≡ modify libs edit pad
    pub careful : P pad.revision → Careful P (edit pad.revision) pad.revision

  pub IsEdit-modify :
      {P : D → Type 0} (edit : D → Edited D) (pad : Pad D)
      → (P pad.revision → Careful P (edit pad.revision) pad.revision)
      → IsEdit P pad (modify libs edit pad)
  IsEdit-modify edit pad c = record { edit = edit; is_modify = refl; careful = c }

  -- A method that returns before it edits.
  pub IsEdit-none : {P : D → Type 0} (pad : Pad D) → IsEdit P pad (done none, pad)
  unfolding modify modified
  IsEdit-none pad = record {
    edit = λ d. (done none, d);
    is_modify = refl;
    careful = λ p. record { honest = inr refl; keeps = p };
  }

  pub IsEdit-failed : {P : D → Type 0} (e : FlowyError) (pad : Pad D) → IsEdit P pad (failed e, pad)
  unfolding modify modified
  IsEdit-failed e pad = record {
    edit = λ d. (failed e, d);
    is_modify = refl;
    careful = λ p. record { honest = inr refl; keeps = p };
  }

  pub IsEdit-keeps :
      {P : D → Type 0} (pad : Pad D) {result : FlowyResult (Option Changeset) × Pad D}
      → IsEdit P pad result
      → P pad.revision
      → P result.1.revision
  IsEdit-keeps {P} pad {result} e p =
      subst P
        (sym (
          ap (λ (r : FlowyResult (Option Changeset) × Pad D). r.1.revision) e.is_modify
          ∙ revision-modify e.edit pad))
        (e.careful p).keeps

  pub IsEdit-IsInSync :
      {P : D → Type 0} (pad : Pad D) {result : FlowyResult (Option Changeset) × Pad D}
      → IsDiff libs.diff
      → IsEdit P pad result
      → P pad.revision
      → IsInSync libs pad
      → HasJson libs result.1.revision
      → IsInSync libs result.1
  IsEdit-IsInSync pad {result} law e p s h =
      subst (λ (r : FlowyResult (Option Changeset) × Pad D). IsInSync libs r.1) (sym e.is_modify)
        (modify-Taken libs law pad s e.edit (e.careful p).honest new_json).in_sync
    where
      new_json : HasJson libs (e.edit pad.revision).1
      new_json =
          subst (HasJson libs)
            (ap (λ (r : FlowyResult (Option Changeset) × Pad D). r.1.revision) e.is_modify
              ∙ revision-modify e.edit pad)
            h

  -- An edit that changed the document gives a changeset.
  pub modify-changed :
      (pad : Pad D) (edit : D → Edited D) {d : D}
      → IsDiff libs.diff
      → IsInSync libs pad
      → edit pad.revision ≡ (done (some tt), d)
      → HasJson libs (modify libs edit pad).1.revision
      → (c : Changeset) × ((modify libs edit pad).0 ≡ done (some c))
        × ((modify libs edit pad).1.revision ≡ d)
  modify-changed pad edit {d} law s e h =
      let (c, p) =
        answered _ _ (edit pad.revision).0 (modify libs edit pad).0 taken.answers
          (ap (λ (r : Edited D). r.0) e) in
      (c, p, revision-modify edit pad ∙ ap (λ (r : Edited D). r.1) e)
    where
      taken :
          Taken libs s.has_json.json
            (edit pad.revision).0
            (edit pad.revision).1
            (modify libs edit pad)
      taken =
          modify-Taken libs law pad s edit (inl (ap (λ (r : Edited D). r.0) e))
            (subst (HasJson libs) (revision-modify edit pad) h)

      answered :
          (old new : Text) (answer : FlowyResult (Option (Unit {0})))
          (result : FlowyResult (Option Changeset))
          → Answers old new answer result
          → answer ≡ done (some tt)
          → (c : Changeset) × (result ≡ done (some c))
      answered old new (failed x) result a q = cc
      answered old new (done none) result a q = cc
      answered old new (done (some u)) (failed x) a q = absurd a
      answered old new (done (some u)) (done none) a q = absurd a
      answered old new (done (some u)) (done (some c)) a q = (c, refl)
