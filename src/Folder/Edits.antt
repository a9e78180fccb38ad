-- ===== src/Folder/Edits.antt =====
-- The closures of `FolderPad`'s methods in
-- frontend/rust-lib/flowy-client-sync/src/client_folder/folder_pad.rs, as edits of the part of the folder that
-- they are given, and the methods that read.
use app_flowy.Prelude.{Bool, Option, none, some, List, [], ◌∷◌, is_nil, ◌&&◌}
use app_flowy.Prelude.Search.{find, any}
use app_flowy.FlowyErrors.{FlowyResult, done, failed, and_then, record_not_found, panicked}
use app_flowy.OtStr.{Text}
use app_flowy.Attributes.{empty_operation_attributes}
use app_flowy.Attributes.HashMap.{text_eq}
use app_flowy.Pad.{on_part, edit_first, Pad, Edited}
use app_flowy.Folder.{
  ViewRevision, AppRevision, WorkspaceRevision, TrashRevision, FolderRevision, fields_of,
}

abbrev pub FolderPad : Type 0
FolderPad = Pad FolderRevision

-- `if let Some(new) = new { old = new }`
abbrev pub or_keep : Option Text → Text → Text
or_keep none old = old
or_keep (some new) old = new

unfoldable pub is_empty : FolderPad → Bool
is_empty pad = is_nil pad.revision.workspaces && is_nil pad.revision.trash

unfoldable pub on_workspaces :
    (List WorkspaceRevision → Edited (List WorkspaceRevision))
    → FolderRevision
    → Edited FolderRevision
on_workspaces f d = on_part (λ ws. record d { workspaces = ws }) (f d.workspaces)

unfoldable pub on_trash :
    (List TrashRevision → Edited (List TrashRevision)) → FolderRevision → Edited FolderRevision
on_trash f d = on_part (λ t. record d { trash = t }) (f d.trash)

-- The closure of `with_workspace`.
unfoldable pub on_workspace :
    Text → (WorkspaceRevision → Edited WorkspaceRevision) → FolderRevision → Edited FolderRevision
unfolding on_workspaces
on_workspace id f =
    on_workspaces λ ws. edit_first (done none) (λ (w : WorkspaceRevision). text_eq id w.id) f ws

abbrev pub on_apps :
    (List AppRevision → Edited (List AppRevision)) → WorkspaceRevision → Edited WorkspaceRevision
on_apps f w = on_part (λ apps. record w { apps = apps }) (f w.apps)

abbrev pub on_views :
    (List ViewRevision → Edited (List ViewRevision)) → AppRevision → Edited AppRevision
on_views f a = on_part (λ views. record a { belongings = views }) (f a.belongings)

-- The closure of `with_app`, whose `unwrap` panics in a workspace without the app.
unfoldable pub on_app :
    Text → (AppRevision → Edited AppRevision) → WorkspaceRevision → Edited WorkspaceRevision
on_app id f =
    on_apps λ apps. edit_first (failed panicked) (λ (a : AppRevision). text_eq id a.id) f apps

-- The first workspace with the app.
unfoldable pub workspace_of : Text → List WorkspaceRevision → Option WorkspaceRevision
workspace_of id = find λ w. any (λ (a : AppRevision). text_eq a.id id) w.apps

unfoldable pub find_app : Text → List WorkspaceRevision → Option AppRevision
find_app id [] = none
find_app id (w ∷ ws) = elim (find (λ (a : AppRevision). text_eq a.id id) w.apps) [
  | none ↦ find_app id ws
  | some a ↦ some a
]

unfoldable pub find_view_in : Text → List AppRevision → Option ViewRevision
find_view_in id [] = none
find_view_in id (a ∷ apps) = elim (find (λ v. text_eq (fields_of v).id id) a.belongings) [
  | none ↦ find_view_in id apps
  | some v ↦ some v
]

unfoldable pub find_view : Text → List WorkspaceRevision → Option ViewRevision
unfolding find_view_in
find_view id [] = none
find_view id (w ∷ ws) = elim (find_view_in id w.apps) [ none ↦ find_view id ws | some v ↦ some v ]

abbrev pub found : {A : Type 0} → Option A → FlowyResult A
found none = failed record_not_found
found (some a) = done a

unfoldable pub read_app : Text → FolderPad → FlowyResult AppRevision
unfolding find_app
read_app id pad = found (find_app id pad.revision.workspaces)

unfoldable pub read_view : Text → FolderPad → FlowyResult ViewRevision
unfolding find_view
read_view id pad = found (find_view id pad.revision.workspaces)

unfoldable pub read_views : Text → FolderPad → FlowyResult (List ViewRevision)
unfolding find_app
read_views belong_to_id pad = elim (find_app belong_to_id pad.revision.workspaces) [
  | none ↦ done []
  | some a ↦ done a.belongings
]

unfoldable pub read_workspaces : Option Text → FolderPad → FlowyResult (List WorkspaceRevision)
read_workspaces none pad = done pad.revision.workspaces
read_workspaces (some id) pad =
    and_then (found (find (λ (w : WorkspaceRevision). text_eq w.id id) pad.revision.workspaces))
      λ w. done (w ∷ [])

unfoldable pub read_trash : Option Text → FolderPad → FlowyResult (List TrashRevision)
read_trash none pad = done pad.revision.trash
read_trash (some id) pad = elim (find (λ (t : TrashRevision). text_eq t.id id) pad.revision.trash) [
  | none ↦ done []
  | some t ↦ done (t ∷ [])
]
