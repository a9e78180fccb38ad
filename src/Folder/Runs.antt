-- ===== src/Folder/Runs.antt =====
-- Any calls of the methods of `FolderPad` that change the folder, one behind the other.
use app_flowy.Prelude.{ℕ, ◌≡◌, Option, List, [], ◌∷◌, All}
use app_flowy.FlowyErrors.{done}
use app_flowy.OtStr.{Text}
use app_flowy.Pad.{Libraries, from_operations}
use app_flowy.Pad.Diff.{IsDiff}
use app_flowy.Pad.InSync.{HasJson, IsInSync}
use app_flowy.Pad.Remote.{IsRoundTrip, from_operations-operations}
use app_flowy.Pad.Edits.{IsEdit, IsEdit-keeps, IsEdit-IsInSync}
use app_flowy.Folder.{ViewRevision, AppRevision, WorkspaceRevision, TrashRevision, FolderRevision}
use app_flowy.Folder.Edits.{FolderPad}
use app_flowy.Folder.FolderPad
use app_flowy.Folder.Nested
use app_flowy.Folder.Nested.Views
use app_flowy.Folder.Nested.{ViewsOf, AppOf, WorkspaceIsLinked, IsLinked}

pub data FolderCall : Type 0 where
  create_workspace : WorkspaceRevision → FolderCall
  update_workspace : Text → Option Text → Option Text → FolderCall
  delete_workspace : Text → FolderCall
  create_app : AppRevision → FolderCall
  update_app : Text → Option Text → Option Text → FolderCall
  delete_app : Text → FolderCall
  move_app : Text → ℕ → ℕ → FolderCall
  create_view : ViewRevision → FolderCall
  update_view : Text → Option Text → Option Text → ℕ → FolderCall
  delete_view : Text → Text → FolderCall
  move_view : Text → ℕ → ℕ → FolderCall
  create_trash : List TrashRevision → FolderCall
  delete_trash : Option (List Text) → FolderCall

-- What is created names what it stands in.
abbrev pub Brings : (Text → Text → Type 0) → FolderCall → Type 0
Brings Linked (create_workspace w) = WorkspaceIsLinked Linked w
Brings Linked (create_app a) = ViewsOf Linked a.id a.belongings
Brings Linked call = Unit

module _ (libs : Libraries FolderRevision) where
  unfoldable pub step : FolderCall → FolderPad → FolderPad.Answer
  step (create_workspace w) = FolderPad.create_workspace libs w
  step (update_workspace id name desc) = FolderPad.update_workspace libs id name desc
  step (delete_workspace id) = FolderPad.delete_workspace libs id
  step (create_app a) = FolderPad.create_app libs a
  step (update_app id name desc) = FolderPad.update_app libs id name desc
  step (delete_app id) = FolderPad.delete_app libs id
  step (move_app id from to) = FolderPad.move_app libs id from to
  step (create_view v) = FolderPad.create_view libs v
  step (update_view id name desc time) = FolderPad.update_view libs id name desc time
  step (delete_view app_id id) = FolderPad.delete_view libs app_id id
  step (move_view id from to) = FolderPad.move_view libs id from to
  step (create_trash trash) = FolderPad.create_trash libs trash
  step (delete_trash ids) = FolderPad.delete_trash libs ids

  unfoldable pub run : List FolderCall → FolderPad → FolderPad
  unfolding step
  run [] pad = pad
  run (call ∷ calls) pad = run calls (step call pad).1

  -- The folder has a JSON after each call.
  abbrev pub StaysJson : List FolderCall → FolderPad → Type 0
  StaysJson [] pad = Unit
  StaysJson (call ∷ calls) pad =
      HasJson libs (step call pad).1.revision × StaysJson calls (step call pad).1

  module _ (Linked : Text → Text → Type 0) (itself : (id : Text) → Linked id id) where
    step-IsEdit :
        (call : FolderCall) (pad : FolderPad)
        → Brings Linked call
        → IsEdit libs (IsLinked Linked) pad (step call pad)
    unfolding step
    step-IsEdit (create_workspace w) pad h =
        Nested.create_workspace-IsEdit Linked itself libs w pad h
    step-IsEdit (update_workspace id name desc) pad _ =
        Nested.update_workspace-IsEdit Linked itself libs id name desc pad
    step-IsEdit (delete_workspace id) pad _ =
        Nested.delete_workspace-IsEdit Linked itself libs id pad
    step-IsEdit (create_app a) pad h = Nested.create_app-IsEdit Linked itself libs a pad h
    step-IsEdit (update_app id name desc) pad _ =
        Nested.update_app-IsEdit Linked itself libs id name desc pad
    step-IsEdit (delete_app id) pad _ = Nested.delete_app-IsEdit Linked itself libs id pad
    step-IsEdit (move_app id from to) pad _ =
        Nested.move_app-IsEdit Linked itself libs id from to pad
    step-IsEdit (create_view v) pad _ = Views.create_view-IsEdit Linked itself libs v pad
    step-IsEdit (update_view id name desc time) pad _ =
        Views.update_view-IsEdit Linked itself libs id name desc time pad
    step-IsEdit (delete_view app_id id) pad _ =
        Views.delete_view-IsEdit Linked itself libs app_id id pad
    step-IsEdit (move_view id from to) pad _ =
        Views.move_view-IsEdit Linked itself libs id from to pad
    step-IsEdit (create_trash trash) pad _ = Views.create_trash-IsEdit Linked itself libs trash pad
    step-IsEdit (delete_trash ids) pad _ = Views.delete_trash-IsEdit Linked itself libs ids pad

    -- For ids that are linked to themselves: calls that create nothing but apps and views which name
    -- what they stand in leave a folder in which every app and view does, if it was so before.
    pub run-IsLinked :
        (calls : List FolderCall) (pad : FolderPad)
        → All (Brings Linked) calls
        → IsLinked Linked pad.revision
        → IsLinked Linked (run calls pad).revision
    unfolding run
    run-IsLinked [] pad b h = h
    run-IsLinked (call ∷ calls) pad b h =
        run-IsLinked calls (step call pad).1 b.1
          (IsEdit-keeps libs pad (step-IsEdit call pad b.0) h)

  abbrev Unlinked : Text → Text → Type 0
  Unlinked id id' = Unit

  free_views : (id : Text) (vs : List ViewRevision) → ViewsOf Unlinked id vs
  free_views id [] = tt
  free_views id (v ∷ vs) = (tt, free_views id vs)

  free_apps : (id : Text) (apps : List AppRevision) → All (AppOf Unlinked id) apps
  free_apps id [] = tt
  free_apps id (a ∷ apps) = ((tt, free_views a.id a.belongings), free_apps id apps)

  free_workspaces : (ws : List WorkspaceRevision) → All (WorkspaceIsLinked Unlinked) ws
  free_workspaces [] = tt
  free_workspaces (w ∷ ws) = (free_apps w.id w.apps, free_workspaces ws)

  free_call : (call : FolderCall) → Brings Unlinked call
  free_call (create_workspace w) = free_apps w.id w.apps
  free_call (create_app a) = free_views a.id a.belongings
  free_call call = tt

  -- A pad that is in sync stays so through any calls, failed or not, after each of which the folder
  -- has a JSON.
  pub run-IsInSync :
      (calls : List FolderCall) (pad : FolderPad)
      → IsDiff libs.diff
      → IsInSync libs pad
      → StaysJson calls pad
      → IsInSync libs (run calls pad)
  unfolding run
  run-IsInSync [] pad law s h = s
  run-IsInSync (call ∷ calls) pad law s h =
      run-IsInSync calls (step call pad).1 law
        (IsEdit-IsInSync libs pad law (step-IsEdit Unlinked (λ id. tt) call pad (free_call call))
          (free_workspaces pad.revision.workspaces) s h.0)
        h.1

  -- A pad that is in sync, and any calls, failed or not, after each of which the folder has a JSON:
  -- the pad that is loaded from the operations which the run leaves is the one that it leaves.
  pub run-from_operations :
      (calls : List FolderCall) (pad : FolderPad)
      → IsDiff libs.diff
      → IsRoundTrip libs
      → IsInSync libs pad
      → StaysJson calls pad
      → from_operations libs (run calls pad).operations ≡ done (run calls pad)
  run-from_operations calls pad law trip s h =
      from_operations-operations libs trip (run calls pad) (run-IsInSync calls pad law s h)
