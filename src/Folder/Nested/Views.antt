-- ===== src/Folder/Nested/Views.antt =====
-- The methods of `FolderPad` for views and for the trash, as careful edits.
use app_flowy.Prelude.{ℕ, Option, none, some, List}
use app_flowy.FlowyErrors.{FlowyResult, done, failed}
use app_flowy.OtStr.{Text}
use app_flowy.Attributes.HashMap.{text_eq}
use app_flowy.Infra.{move_vec_element}
use app_flowy.Pad.{Libraries, Edited, edit_first, push_new, drop_id, moved}
use app_flowy.Pad.Careful.{
  Careful, Careful-some, Careful-edit_first, Careful-push_new, Careful-drop_id, Careful-move,
}
use app_flowy.Pad.Edits.{IsEdit, IsEdit-failed}
use app_flowy.Folder.{
  ViewRevision, view_revision, TrashRevision, FolderRevision, fields_of, with_fields, view_eq,
}
use app_flowy.Folder.Edits.{FolderPad, on_views, read_view, or_keep}
use app_flowy.Folder.FolderPad
use app_flowy.Folder.Nested
use app_flowy.Folder.Nested.{IsLinked}

module _ (Linked : Text → Text → Type 0) (itself : (id : Text) → Linked id id)
    (libs : Libraries FolderRevision) where
  pub create_view-IsEdit :
      (v : ViewRevision) (pad : FolderPad)
      → IsEdit libs (IsLinked Linked) pad (FolderPad.create_view libs v pad)
  unfolding FolderPad.create_view
  create_view-IsEdit v pad =
      Nested.of_app Linked itself libs (fields_of v).app_id _ pad λ workspace_id a e h.
        Nested.of_views Linked itself libs (push_new view_eq v) workspace_id a h (
          Careful-push_new view_eq v a.belongings
            (Nested.of_same Linked itself libs (fields_of v).app_id a.id e) h.1)

  pub delete_view-IsEdit :
      (app_id id : Text) (pad : FolderPad)
      → IsEdit libs (IsLinked Linked) pad (FolderPad.delete_view libs app_id id pad)
  unfolding FolderPad.delete_view
  delete_view-IsEdit app_id id pad =
      Nested.of_app Linked itself libs app_id _ pad λ workspace_id a _ h.
        Nested.of_views Linked itself libs (drop_id (λ v. (fields_of v).id) id) workspace_id a h
          (Careful-drop_id (λ v. (fields_of v).id) id a.belongings h.1)

  pub update_view-IsEdit :
      (id : Text) (name desc : Option Text) (modified_time : ℕ) (pad : FolderPad)
      → IsEdit libs
          (IsLinked Linked)
          pad
          (FolderPad.update_view libs id name desc modified_time pad)
  unfolding FolderPad.update_view FolderPad.with_view
  update_view-IsEdit id name desc modified_time pad = by_view (read_view id pad)
    where
      update : ViewRevision → Edited ViewRevision
      update = λ v. (
        done (some tt),
        with_fields
            (record (fields_of v) {
              name = or_keep name (fields_of v).name;
              desc = or_keep desc (fields_of v).desc;
              modified_time = modified_time;
            })
            v,
      )

      updated :
          (app_id : Text) (v : ViewRevision)
          → Linked (fields_of v).app_id app_id
          → Careful (λ v. Linked (fields_of v).app_id app_id) (update v) v
      updated app_id (view_revision fields belongings) h = Careful-some h

      by_view :
          (r : FlowyResult ViewRevision)
          → IsEdit libs (IsLinked Linked) pad (elim r [
            | failed e ↦ (failed e, pad)
            | done view ↦ FolderPad.with_view libs (fields_of view).app_id id update pad
          ])
      by_view (failed e) = IsEdit-failed libs e pad
      by_view (done view) =
          Nested.of_app Linked itself libs (fields_of view).app_id _ pad λ workspace_id a _ h.
            Nested.of_views Linked itself libs
              (λ views. edit_first (done none) (λ v. text_eq id (fields_of v).id) update views)
              workspace_id a h
              (Careful-edit_first (done none) (λ v. text_eq id (fields_of v).id) update a.belongings
                (λ v _ k. updated a.id v k) h.1)

  pub move_view-IsEdit :
      (id : Text) (from to : ℕ) (pad : FolderPad)
      → IsEdit libs (IsLinked Linked) pad (FolderPad.move_view libs id from to pad)
  unfolding FolderPad.move_view
  move_view-IsEdit id from to pad = by_view (read_view id pad)
    where
      move : List ViewRevision → Edited (List ViewRevision)
      move = λ views. moved (move_vec_element (λ v. text_eq (fields_of v).id id) from to views)

      by_view :
          (r : FlowyResult ViewRevision)
          → IsEdit libs (IsLinked Linked) pad (elim r [
            | failed e ↦ (failed e, pad)
            | done view ↦ FolderPad.with_app libs (fields_of view).app_id (on_views move) pad
          ])
      by_view (failed e) = IsEdit-failed libs e pad
      by_view (done view) =
          Nested.of_app Linked itself libs (fields_of view).app_id _ pad λ workspace_id a _ h.
            Nested.of_views Linked itself libs move workspace_id a h
              (Careful-move (λ v. text_eq (fields_of v).id id) from to a.belongings h.1)

  pub create_trash-IsEdit :
      (trash : List TrashRevision) (pad : FolderPad)
      → IsEdit libs (IsLinked Linked) pad (FolderPad.create_trash libs trash pad)
  unfolding FolderPad.create_trash
  create_trash-IsEdit trash pad = Nested.of_trash Linked itself libs _ pad λ t. Careful-some tt

  pub delete_trash-IsEdit :
      (trash_ids : Option (List Text)) (pad : FolderPad)
      → IsEdit libs (IsLinked Linked) pad (FolderPad.delete_trash libs trash_ids pad)
  unfolding FolderPad.delete_trash
  delete_trash-IsEdit none pad = Nested.of_trash Linked itself libs _ pad λ t. Careful-some tt
  delete_trash-IsEdit (some trash_ids) pad =
      Nested.of_trash Linked itself libs _ pad λ t. Careful-some tt
