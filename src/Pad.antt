-- ===== src/Pad.antt =====
-- What the pads of frontend/rust-lib/flowy-client-sync/src have in common: a document of folders or of
-- a grid, with the delta whose content is the document's JSON, and `cal_diff` of util.rs, by which a
-- change of the document becomes one of the delta. JSON, the comparison of texts and the checksum are
-- other libraries', so they are a parameter. An `i64` or `i32` that is only stored is a number.
pub mod Delta
pub mod Diff
pub mod InSync
pub mod Remote
pub mod Careful
pub mod Edits
use app_flowy.Prelude.{
  ℕ, Bool, true, false, not, Option, none, some, List, [], ◌∷◌, ◌++◌, is_nil, if◌then◌else◌,
}
use app_flowy.Prelude.Search.{any, retain, update_first}
use app_flowy.Attributes.HashMap.{text_eq}
use app_flowy.FlowyErrors.{
  FlowyResult, done, failed, and_then, from_ot, internal_error, unexpected_empty_revision,
}
use app_flowy.OtStr.{Text, utf16_len}
use app_flowy.Attributes.{OperationAttributes, EmptyAttributes, empty_operation_attributes}
use app_flowy.Delta.Ops
use app_flowy.Delta.Ops.{DeltaOperations, content}
use app_flowy.Delta.Compose.{compose}
use app_flowy.Delta.Builder
use app_flowy.Delta.Builder.{DeltaOperationBuilder, build, new_builder}
use app_flowy.ClientDocument.{computed}
use app_flowy.Revision.{Revision}

-- `dissimilar::Chunk`
pub data Chunk : Type 0 where
  equal delete insert : Text → Chunk

-- `serde_json::to_string` and `from_str` on the document, `dissimilar::diff`, and the md5 of the JSON
-- of a delta.
pub record Libraries (D : Type 0) : Type 0 where
  pub to_json : D → Option Text
  pub from_json : Text → Option D
  pub diff : Text → Text → List Chunk
  pub md5 : DeltaOperations EmptyAttributes → Text

module _ {T : Type 0} ⦃attrs : OperationAttributes T⦄ where
  -- The loop of `cal_diff`.
  unfoldable pub add_chunks : List Chunk → DeltaOperationBuilder T → DeltaOperationBuilder T
  add_chunks [] b = b
  add_chunks (equal s ∷ chunks) b = add_chunks chunks (Builder.retain (utf16_len s) b)
  add_chunks (delete s ∷ chunks) b = add_chunks chunks (Builder.delete (utf16_len s) b)
  add_chunks (insert s ∷ chunks) b = add_chunks chunks (Builder.insert s b)

  unfoldable pub cal_diff : (Text → Text → List Chunk) → Text → Text → Option (DeltaOperations T)
  unfolding add_chunks build new_builder
  cal_diff diff old new =
      let d = build (add_chunks (diff old new) new_builder) in if is_nil d.ops then none else some d

-- `FolderPad`, `GridBlockRevisionPad` and `DatabaseRevisionPad`.
pub record Pad (D : Type 0) : Type 0 where
  pub revision : D
  pub operations : DeltaOperations EmptyAttributes

pub record Changeset : Type 0 where
  pub operations : DeltaOperations EmptyAttributes
  pub md5 : Text

-- What the closure that a pad's method gives to `modify` returns, and the document that it leaves.
abbrev pub Edited : Type 0 → Type 0
Edited D = FlowyResult (Option (Unit {0})) × D

abbrev pub json_or_error {ℓ} : {A : Type ℓ} → Option A → FlowyResult A
json_or_error none = failed internal_error
json_or_error (some a) = done a

-- The edit of a part of a document, as one of the whole.
abbrev pub on_part : {D : Type 0} {A : Type 0} → (A → D) → Edited A → Edited D
on_part put (r, a) = (r, put a)

-- What the callers make of a move.
abbrev pub moved : {A : Type 0} → FlowyResult Bool × List A → Edited (List A)
moved (failed e, xs) = (failed e, xs)
moved (done true, xs) = (done (some tt), xs)
moved (done false, xs) = (done none, xs)

-- `iter_mut().find` with what is returned where nothing is found.
abbrev pub edit_first :
    {A : Type 0}
    → FlowyResult (Option (Unit {0}))
    → (A → Bool)
    → (A → Edited A)
    → List A
    → Edited (List A)
edit_first missing test edit xs = elim (update_first test edit xs) [
  | none ↦ (missing, xs)
  | some r ↦ r
]

-- The closures of the methods: an element behind the others, one that does not stand there yet, and
-- all but those of one id.
unfoldable pub push : {A : Type 0} → A → List A → Edited (List A)
push x xs = (done (some tt), xs ++ x ∷ [])

unfoldable pub push_new : {A : Type 0} → (A → A → Bool) → A → List A → Edited (List A)
unfolding push
push_new eq x xs = if any (λ y. eq y x) xs then (done none, xs) else push x xs

unfoldable pub drop_id : {A : Type 0} → (A → Text) → Text → List A → Edited (List A)
drop_id id_of id xs = (done (some tt), retain (λ x. not (text_eq (id_of x) id)) xs)

module _ {D : Type 0} (libs : Libraries D) where
  -- The delta takes up the difference.
  unfoldable pub take_up :
      Option (DeltaOperations EmptyAttributes) → Pad D → FlowyResult (Option Changeset) × Pad D
  take_up none pad = (done none, pad)
  take_up (some d) pad = elim (computed (compose pad.operations d)) [
    | failed e ↦ (failed e, pad)
    | done composed ↦ (
      done (some (record { operations = d; md5 = libs.md5 composed })),
      record pad { operations = composed },
    )
  ]

  -- The document is `old` in JSON before the edit and `new` after it.
  unfoldable pub compare_json :
      Option Text → Option Text → Pad D → FlowyResult (Option Changeset) × Pad D
  unfolding take_up cal_diff
  compare_json none new pad = (failed internal_error, pad)
  compare_json (some old) none pad = (failed internal_error, pad)
  compare_json (some old) (some new) pad = take_up (cal_diff libs.diff old new) pad

  unfoldable pub modified : Edited D → Pad D → FlowyResult (Option Changeset) × Pad D
  unfolding compare_json
  modified (failed e, revision) pad = (failed e, record pad { revision = revision })
  modified (done none, revision) pad = (done none, record pad { revision = revision })
  modified (done (some _), revision) pad =
      compare_json (libs.to_json pad.revision) (libs.to_json revision)
        (record pad { revision = revision })

  -- `modify_workspaces`, `with_trash`, `modify` and `modify_grid`: the document is changed in place,
  -- also where the edit fails behind a change.
  unfoldable pub modify : (D → Edited D) → Pad D → FlowyResult (Option Changeset) × Pad D
  unfolding modified
  modify edit pad = modified (edit pad.revision) pad

  unfoldable pub from_operations : DeltaOperations EmptyAttributes → FlowyResult (Pad D)
  from_operations d = and_then (from_ot (content d)) λ json.
      and_then (json_or_error (libs.from_json json))
        λ revision. done (record { revision = revision; operations = d })

  -- `from_folder_rev`, and `initial_folder_operations` and the like with the document beside it.
  unfoldable pub from_revision : D → FlowyResult (Pad D)
  from_revision revision = and_then (json_or_error (libs.to_json revision)) λ json.
      done (record { revision = revision; operations = build (Builder.insert json new_builder) })

  -- The answer is the checksum.
  unfoldable pub reset_folder : DeltaOperations EmptyAttributes → Pad D → FlowyResult Text × Pad D
  unfolding from_operations
  reset_folder d pad = elim (from_operations d) [
    | failed e ↦ (failed e, pad)
    | done folder ↦ (done (libs.md5 folder.operations), folder)
  ]

  unfoldable pub compose_remote_operations :
      DeltaOperations EmptyAttributes → Pad D → FlowyResult Text × Pad D
  unfolding reset_folder
  compose_remote_operations d pad = elim (computed (compose pad.operations d)) [
    | failed e ↦ (failed e, pad)
    | done composed ↦ reset_folder composed pad
  ]

-- shared-lib/flowy-sync/src/util.rs. The bytes are serialisation, so `from_bytes` is a parameter.
module _ {T : Type 0} ⦃attrs : OperationAttributes T⦄
    (from_bytes : List ℕ → Option (DeltaOperations T)) where
  -- The loop: the revisions are composed behind `new_operations`.
  unfoldable pub compose_revisions :
      DeltaOperations T → List Revision → FlowyResult (DeltaOperations T)
  compose_revisions new_operations [] = done new_operations
  compose_revisions new_operations (r ∷ rs) =
      if is_nil r.bytes
      then failed unexpected_empty_revision
      else and_then (json_or_error (from_bytes r.bytes)) λ operations.
        and_then (computed (compose new_operations operations))
          λ composed. compose_revisions composed rs

  unfoldable pub make_operations_from_revisions : List Revision → FlowyResult (DeltaOperations T)
  unfolding compose_revisions
  make_operations_from_revisions rs = compose_revisions Ops.new rs
