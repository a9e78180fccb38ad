-- ===== src/Folder/FolderPad.antt =====
-- `FolderPad` of frontend/rust-lib/flowy-client-sync/src/client_folder/folder_pad.rs: the methods that change
-- the folder, each with its closure as an edit.
use app_flowy.Prelude.{ℕ, not, Option, none, some, List, [], ◌∷◌, ◌++◌, is_nil, if◌then◌else◌}
use app_flowy.Prelude.Search.{any, retain}
use app_flowy.FlowyErrors.{FlowyResult, done, failed, and_then}
use app_flowy.OtStr.{Text}
use app_flowy.Attributes.{EmptyAttributes, empty_operation_attributes}
use app_flowy.Attributes.HashMap.{text_eq}
use app_flowy.Delta.Ops.{DeltaOperations}
use app_flowy.Delta.Builder
use app_flowy.Delta.Builder.{build, new_builder}
use app_flowy.Infra.{move_vec_element}
use app_flowy.Revision.{Revision}
use app_flowy.Pad.{
  moved, edit_first, push, push_new, drop_id, Libraries, Changeset, Edited, modify, from_operations,
  from_revision, make_operations_from_revisions,
}
use app_flowy.Folder.{
  ViewRevision, AppRevision, WorkspaceRevision, TrashRevision, FolderRevision, fields_of,
  with_fields, view_eq, app_eq, workspace_eq,
}
use app_flowy.Folder.Edits.{
  FolderPad, or_keep, on_workspaces, on_trash, on_workspace, on_apps, on_views, on_app,
  workspace_of, read_app, read_view,
}

-- What a method returns, with the pad that it leaves.
abbrev pub Answer : Type 0
Answer = FlowyResult (Option Changeset) × FolderPad

-- {"workspaces":[],"trash":[]}
abbrev pub default_json : Text
default_json =
    123 ∷ 34 ∷ 119 ∷ 111 ∷ 114 ∷ 107 ∷ 115 ∷ 112 ∷ 97 ∷ 99 ∷ 101 ∷ 115 ∷ 34 ∷ 58 ∷ 91 ∷ 93 ∷ 44 ∷ 34
    ∷ 116 ∷ 114 ∷ 97 ∷ 115 ∷ 104 ∷ 34 ∷ 58 ∷ 91 ∷ 93 ∷ 125 ∷ []

unfoldable pub default_folder_operations : DeltaOperations EmptyAttributes
default_folder_operations = build (Builder.insert default_json new_builder)

module _ (libs : Libraries FolderRevision) where
  unfoldable pub with_workspace :
      Text → (WorkspaceRevision → Edited WorkspaceRevision) → FolderPad → Answer
  unfolding on_workspace
  with_workspace id f pad = modify libs (on_workspace id f) pad

  unfoldable pub with_app : Text → (AppRevision → Edited AppRevision) → FolderPad → Answer
  unfolding with_workspace workspace_of on_app
  with_app id f pad = elim (workspace_of id pad.revision.workspaces) [
    | none ↦ (done none, pad)
    | some w ↦ with_workspace w.id (on_app id f) pad
  ]

  unfoldable pub with_view : Text → Text → (ViewRevision → Edited ViewRevision) → FolderPad → Answer
  unfolding with_app
  with_view belong_to_id id f pad =
      with_app belong_to_id
        (on_views λ views. edit_first (done none) (λ v. text_eq id (fields_of v).id) f views) pad

  unfoldable pub create_workspace : WorkspaceRevision → FolderPad → Answer
  unfolding on_workspaces push
  create_workspace w pad =
      if any (λ v. workspace_eq v w) pad.revision.workspaces
      then (done none, pad)
      else modify libs (on_workspaces (push w)) pad

  unfoldable pub update_workspace : Text → Option Text → Option Text → FolderPad → Answer
  unfolding with_workspace
  update_workspace id name desc pad =
      with_workspace id
        (λ w. (done (some tt), record w { name = or_keep name w.name; desc = or_keep desc w.desc }))
        pad

  unfoldable pub delete_workspace : Text → FolderPad → Answer
  unfolding on_workspaces drop_id
  delete_workspace id pad = modify libs (on_workspaces (drop_id WorkspaceRevision.id id)) pad

  unfoldable pub create_app : AppRevision → FolderPad → Answer
  unfolding with_workspace push_new
  create_app a pad = with_workspace a.workspace_id (on_apps (push_new app_eq a)) pad

  unfoldable pub update_app : Text → Option Text → Option Text → FolderPad → Answer
  unfolding with_app
  update_app id name desc pad =
      with_app id
        (λ a. (done (some tt), record a { name = or_keep name a.name; desc = or_keep desc a.desc }))
        pad

  unfoldable pub delete_app : Text → FolderPad → Answer
  unfolding read_app with_workspace drop_id
  delete_app id pad = elim (read_app id pad) [
    | failed e ↦ (failed e, pad)
    | done a ↦ with_workspace a.workspace_id (on_apps (drop_id AppRevision.id id)) pad
  ]

  unfoldable pub move_app : Text → ℕ → ℕ → FolderPad → Answer
  unfolding read_app with_workspace
  move_app id from to pad = elim (read_app id pad) [
    | failed e ↦ (failed e, pad)
    | done a ↦
        with_workspace a.workspace_id
          (on_apps λ apps. moved (move_vec_element (λ b. text_eq b.id id) from to apps)) pad
  ]

  unfoldable pub create_view : ViewRevision → FolderPad → Answer
  unfolding with_app push_new
  create_view v pad = with_app (fields_of v).app_id (on_views (push_new view_eq v)) pad

  unfoldable pub update_view : Text → Option Text → Option Text → ℕ → FolderPad → Answer
  unfolding read_view with_view
  update_view id name desc modified_time pad = elim (read_view id pad) [
    | failed e ↦ (failed e, pad)
    | done view ↦
        with_view (fields_of view).app_id id
          (λ v. (
            done (some tt),
            with_fields
                (record (fields_of v) {
                  name = or_keep name (fields_of v).name;
                  desc = or_keep desc (fields_of v).desc;
                  modified_time = modified_time;
                })
                v,
          ))
          pad
  ]

  unfoldable pub delete_view : Text → Text → FolderPad → Answer
  unfolding with_app drop_id
  delete_view app_id id pad = with_app app_id (on_views (drop_id (λ v. (fields_of v).id) id)) pad

  unfoldable pub move_view : Text → ℕ → ℕ → FolderPad → Answer
  unfolding read_view with_app
  move_view id from to pad = elim (read_view id pad) [
    | failed e ↦ (failed e, pad)
    | done view ↦
        with_app (fields_of view).app_id
          (on_views
            λ views. moved (move_vec_element (λ v. text_eq (fields_of v).id id) from to views))
          pad
  ]

  unfoldable pub create_trash : List TrashRevision → FolderPad → Answer
  unfolding on_trash
  create_trash trash pad = modify libs (on_trash λ t. (done (some tt), t ++ trash)) pad

  unfoldable pub delete_trash : Option (List Text) → FolderPad → Answer
  unfolding on_trash
  delete_trash none pad = modify libs (on_trash λ t. (done (some tt), [])) pad
  delete_trash (some trash_ids) pad =
      modify libs
        (on_trash λ trash.
          (done (some tt), retain (λ t. not (any (λ id. text_eq id t.id) trash_ids)) trash))
        pad

  unfoldable pub new : List WorkspaceRevision → List TrashRevision → FlowyResult FolderPad
  new workspaces trash = from_revision libs (record { workspaces = workspaces; trash = trash })

  -- `from_revisions`, which is `build_with_revisions` of builder.rs.
  unfoldable pub from_revisions :
      (List ℕ → Option (DeltaOperations EmptyAttributes)) → List Revision → FlowyResult FolderPad
  unfolding default_folder_operations
  from_revisions from_bytes rs =
      and_then (make_operations_from_revisions from_bytes rs)
        λ d. from_operations libs (if is_nil d.ops then default_folder_operations else d)
