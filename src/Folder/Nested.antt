-- ===== src/Folder/Nested.antt =====
-- The methods of `FolderPad` are `modify` on careful edits, which keep every app with its workspace and
-- every view with its app: those for workspaces and apps. The link between two ids is a parameter: equality, or none.
pub mod Views
use app_flowy.Prelude.{
  ℕ, ◌≡◌, subst, inl, inr, true, Option, none, some, List, ◌∷◌, ◌++◌, All, Bool-cases,
  if◌then◌else◌,
}
use app_flowy.Prelude.Search.{any}
use app_flowy.FlowyErrors.{FlowyResult, done, failed, panicked}
use app_flowy.OtStr.{Text}
use app_flowy.Attributes.HashMap.{text_eq}
use app_flowy.Attributes.HashMap.Laws.{text_eq_sound}
use app_flowy.Infra.{move_vec_element}
use app_flowy.Pad.{Libraries, Edited, modify, edit_first, push_new, drop_id, moved}
use app_flowy.Pad.Careful.{
  Careful, Careful-some, Careful-on_part, Careful-edit_first, Careful-push, Careful-push_new,
  Careful-drop_id, Careful-move,
}
use app_flowy.Pad.Edits.{IsEdit, IsEdit-modify, IsEdit-none, IsEdit-failed}
use app_flowy.Folder.{
  ViewRevision, AppRevision, WorkspaceRevision, TrashRevision, FolderRevision, fields_of, app_eq,
  workspace_eq,
}
use app_flowy.Folder.Edits
use app_flowy.Folder.Edits.{
  FolderPad, on_workspaces, on_trash, on_workspace, on_apps, on_views, on_app, workspace_of,
  read_app,
}
use app_flowy.Folder.FolderPad

module _ (Linked : Text → Text → Type 0) where
  abbrev pub ViewsOf : Text → List ViewRevision → Type 0
  ViewsOf id = All λ v. Linked (fields_of v).app_id id

  abbrev pub AppOf : Text → AppRevision → Type 0
  AppOf workspace_id a = Linked a.workspace_id workspace_id × ViewsOf a.id a.belongings

  abbrev pub WorkspaceIsLinked : WorkspaceRevision → Type 0
  WorkspaceIsLinked w = All (AppOf w.id) w.apps

  -- The ids that the apps and the views name are those of what they stand in.
  abbrev pub IsLinked : FolderRevision → Type 0
  IsLinked d = All WorkspaceIsLinked d.workspaces

module _ (Linked : Text → Text → Type 0) (itself : (id : Text) → Linked id id)
    (libs : Libraries FolderRevision) where
  pub of_same : (id id' : Text) → text_eq id id' ≡ true → Linked id id'
  of_same id id' e = subst (Linked id) (text_eq_sound id id' e) (itself id)

  of_workspaces :
      (f : List WorkspaceRevision → Edited (List WorkspaceRevision)) (pad : FolderPad)
      → ((ws : List WorkspaceRevision)
          → All (WorkspaceIsLinked Linked) ws
          → Careful (All (WorkspaceIsLinked Linked)) (f ws) ws)
      → IsEdit libs (IsLinked Linked) pad (modify libs (on_workspaces f) pad)
  unfolding on_workspaces
  of_workspaces f pad c = IsEdit-modify libs (on_workspaces f) pad λ h.
      Careful-on_part (λ ws. record pad.revision { workspaces = ws }) (λ p. p)
        (c pad.revision.workspaces h)

  pub of_trash :
      (f : List TrashRevision → Edited (List TrashRevision)) (pad : FolderPad)
      → ((t : List TrashRevision) → Careful (λ _. Unit {0}) (f t) t)
      → IsEdit libs (IsLinked Linked) pad (modify libs (on_trash f) pad)
  unfolding on_trash
  of_trash f pad c =
      IsEdit-modify libs (on_trash f) pad λ h.
        Careful-on_part (λ t. record pad.revision { trash = t }) (λ _. h) (c pad.revision.trash)

  of_workspace :
      (id : Text) (f : WorkspaceRevision → Edited WorkspaceRevision) (pad : FolderPad)
      → ((w : WorkspaceRevision)
          → text_eq id w.id ≡ true
          → WorkspaceIsLinked Linked w
          → Careful (WorkspaceIsLinked Linked) (f w) w)
      → IsEdit libs (IsLinked Linked) pad (FolderPad.with_workspace libs id f pad)
  unfolding FolderPad.with_workspace on_workspace
  of_workspace id f pad c =
      of_workspaces _ pad λ ws h. Careful-edit_first (done none) (λ w. text_eq id w.id) f ws c h

  of_apps :
      (g : List AppRevision → Edited (List AppRevision)) (w : WorkspaceRevision)
      → Careful (All (AppOf Linked w.id)) (g w.apps) w.apps
      → Careful (WorkspaceIsLinked Linked) (on_apps g w) w
  of_apps g w c = Careful-on_part (λ apps. record w { apps = apps }) (λ p. p) c

  pub of_app :
      (id : Text) (f : AppRevision → Edited AppRevision) (pad : FolderPad)
      → ((workspace_id : Text) (a : AppRevision)
          → text_eq id a.id ≡ true
          → AppOf Linked workspace_id a
          → Careful (AppOf Linked workspace_id) (f a) a)
      → IsEdit libs (IsLinked Linked) pad (FolderPad.with_app libs id f pad)
  unfolding FolderPad.with_app on_app
  of_app id f pad c = by_workspace (workspace_of id pad.revision.workspaces)
    where
      by_workspace :
          (o : Option WorkspaceRevision)
          → IsEdit libs (IsLinked Linked) pad (elim o [
            | none ↦ (done none, pad)
            | some w ↦ FolderPad.with_workspace libs w.id (on_app id f) pad
          ])
      by_workspace none = IsEdit-none libs pad
      by_workspace (some w) = of_workspace w.id (on_app id f) pad λ w' _ h.
          of_apps
            (λ apps. edit_first (failed panicked) (λ (a : AppRevision). text_eq id a.id) f apps) w'
            (Careful-edit_first (failed panicked) (λ a. text_eq id a.id) f w'.apps (c w'.id) h)

  pub of_views :
      (g : List ViewRevision → Edited (List ViewRevision)) (workspace_id : Text) (a : AppRevision)
      → AppOf Linked workspace_id a
      → Careful (ViewsOf Linked a.id) (g a.belongings) a.belongings
      → Careful (AppOf Linked workspace_id) (on_views g a) a
  of_views g workspace_id a h c =
      Careful-on_part (λ views. record a { belongings = views }) (λ p. (h.0, p)) c

  pub create_workspace-IsEdit :
      (w : WorkspaceRevision) (pad : FolderPad)
      → WorkspaceIsLinked Linked w
      → IsEdit libs (IsLinked Linked) pad (FolderPad.create_workspace libs w pad)
  unfolding FolderPad.create_workspace
  create_workspace-IsEdit w pad h =
      elim (Bool-cases (any (λ v. workspace_eq v w) pad.revision.workspaces)) [
        | inl there ↦ rw there (IsEdit-none libs pad)
        | inr fresh ↦ rw fresh (of_workspaces _ pad λ ws k. Careful-push w ws h k)
      ]

  pub update_workspace-IsEdit :
      (id : Text) (name desc : Option Text) (pad : FolderPad)
      → IsEdit libs (IsLinked Linked) pad (FolderPad.update_workspace libs id name desc pad)
  unfolding FolderPad.update_workspace
  update_workspace-IsEdit id name desc pad = of_workspace id _ pad λ w _ h. Careful-some h

  pub delete_workspace-IsEdit :
      (id : Text) (pad : FolderPad)
      → IsEdit libs (IsLinked Linked) pad (FolderPad.delete_workspace libs id pad)
  unfolding FolderPad.delete_workspace
  delete_workspace-IsEdit id pad =
      of_workspaces _ pad λ ws h. Careful-drop_id WorkspaceRevision.id id ws h

  pub create_app-IsEdit :
      (a : AppRevision) (pad : FolderPad)
      → ViewsOf Linked a.id a.belongings
      → IsEdit libs (IsLinked Linked) pad (FolderPad.create_app libs a pad)
  unfolding FolderPad.create_app
  create_app-IsEdit a pad h = of_workspace a.workspace_id _ pad λ w e k.
      of_apps (push_new app_eq a) w
        (Careful-push_new app_eq a w.apps (of_same a.workspace_id w.id e, h) k)

  pub update_app-IsEdit :
      (id : Text) (name desc : Option Text) (pad : FolderPad)
      → IsEdit libs (IsLinked Linked) pad (FolderPad.update_app libs id name desc pad)
  unfolding FolderPad.update_app
  update_app-IsEdit id name desc pad = of_app id _ pad λ workspace_id a _ h. Careful-some h

  pub delete_app-IsEdit :
      (id : Text) (pad : FolderPad)
      → IsEdit libs (IsLinked Linked) pad (FolderPad.delete_app libs id pad)
  unfolding FolderPad.delete_app
  delete_app-IsEdit id pad = by_app (read_app id pad)
    where
      by_app :
          (r : FlowyResult AppRevision)
          → IsEdit libs (IsLinked Linked) pad (elim r [
            | failed e ↦ (failed e, pad)
            | done a ↦
                FolderPad.with_workspace libs a.workspace_id
                  (on_apps (drop_id AppRevision.id id))
                  pad
          ])
      by_app (failed e) = IsEdit-failed libs e pad
      by_app (done a) = of_workspace a.workspace_id _ pad λ w _ h.
          of_apps (drop_id AppRevision.id id) w (Careful-drop_id AppRevision.id id w.apps h)

  pub move_app-IsEdit :
      (id : Text) (from to : ℕ) (pad : FolderPad)
      → IsEdit libs (IsLinked Linked) pad (FolderPad.move_app libs id from to pad)
  unfolding FolderPad.move_app
  move_app-IsEdit id from to pad = by_app (read_app id pad)
    where
      move : List AppRevision → Edited (List AppRevision)
      move = λ apps. moved (move_vec_element (λ (b : AppRevision). text_eq b.id id) from to apps)

      by_app :
          (r : FlowyResult AppRevision)
          → IsEdit libs (IsLinked Linked) pad (elim r [
            | failed e ↦ (failed e, pad)
            | done a ↦ FolderPad.with_workspace libs a.workspace_id (on_apps move) pad
          ])
      by_app (failed e) = IsEdit-failed libs e pad
      by_app (done a) =
          of_workspace a.workspace_id _ pad
            λ w _ h. of_apps move w (Careful-move (λ b. text_eq b.id id) from to w.apps h)
