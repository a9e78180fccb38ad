-- ===== src/Folder.antt =====
-- shared-lib/folder-model/src: the workspaces of a user with their apps and views, and the trash. An
-- `i64` is only stored and compared, so it is a number. `derive(PartialEq)` compares all fields.
pub mod Edits
pub mod FolderPad
pub mod Nested
pub mod Runs
pub mod Updates
use app_flowy.Prelude.{ℕ, Bool, true, false, ◌&&◌, List, [], ◌∷◌, ◌==◌}
use app_flowy.OtStr.{Text}
use app_flowy.Attributes.HashMap.{text_eq}

pub data ViewDataFormatRevision : Type 0 where
  delta_format database_format tree_format : ViewDataFormatRevision

pub data ViewLayoutTypeRevision : Type 0 where
  document grid board calendar : ViewLayoutTypeRevision

pub data TrashTypeRevision : Type 0 where
  unknown trash_view trash_app : TrashTypeRevision

-- The discriminants of the enums.
abbrev pub format_code : ViewDataFormatRevision → ℕ
format_code delta_format = 0
format_code database_format = 1
format_code tree_format = 2

abbrev pub layout_code : ViewLayoutTypeRevision → ℕ
layout_code document = 0
layout_code grid = 3
layout_code board = 4
layout_code calendar = 5

abbrev pub trash_code : TrashTypeRevision → ℕ
trash_code unknown = 0
trash_code trash_view = 1
trash_code trash_app = 2

-- `ViewRevision` but for the views that belong to it.
pub record ViewFields : Type 0 where
  pub id : Text
  pub app_id : Text
  pub name : Text
  pub desc : Text
  pub data_format : ViewDataFormatRevision
  pub version : ℕ
  pub modified_time : ℕ
  pub create_time : ℕ
  pub ext_data : Text
  pub thumbnail : Text
  pub layout : ViewLayoutTypeRevision

mutual
  pub data ViewRevision : Type 0 where
    view_revision : ViewFields → ViewList → ViewRevision

  pub data ViewList : Type 0 where
    no_views : ViewList
    next_view : ViewRevision → ViewList → ViewList

abbrev pub fields_of : ViewRevision → ViewFields
fields_of (view_revision fields belongings) = fields

abbrev pub with_fields : ViewFields → ViewRevision → ViewRevision
with_fields fields (view_revision _ belongings) = view_revision fields belongings

pub record AppRevision : Type 0 where
  pub id : Text
  pub workspace_id : Text
  pub name : Text
  pub desc : Text
  pub belongings : List ViewRevision
  pub version : ℕ
  pub modified_time : ℕ
  pub create_time : ℕ

pub record WorkspaceRevision : Type 0 where
  pub id : Text
  pub name : Text
  pub desc : Text
  pub apps : List AppRevision
  pub modified_time : ℕ
  pub create_time : ℕ

pub record TrashRevision : Type 0 where
  pub id : Text
  pub name : Text
  pub modified_time : ℕ
  pub create_time : ℕ
  pub ty : TrashTypeRevision

pub record FolderRevision : Type 0 where
  pub workspaces : List WorkspaceRevision
  pub trash : List TrashRevision

abbrev pub list_eq : {A : Type 0} → (A → A → Bool) → List A → List A → Bool
list_eq eq [] [] = true
list_eq eq [] (b ∷ bs) = false
list_eq eq (a ∷ as') [] = false
list_eq eq (a ∷ as') (b ∷ bs) = eq a b && list_eq eq as' bs

unfoldable pub fields_eq : ViewFields → ViewFields → Bool
fields_eq v w =
    text_eq v.id w.id
    && text_eq v.app_id w.app_id
    && text_eq v.name w.name
    && text_eq v.desc w.desc
    && format_code v.data_format == format_code w.data_format
    && v.version == w.version
    && v.modified_time == w.modified_time
    && v.create_time == w.create_time
    && text_eq v.ext_data w.ext_data
    && text_eq v.thumbnail w.thumbnail
    && layout_code v.layout == layout_code w.layout

unfoldable mutual
  pub view_eq : ViewRevision → ViewRevision → Bool
  view_eq (view_revision v vs) (view_revision w ws) = fields_eq v w && views_eq vs ws

  pub views_eq : ViewList → ViewList → Bool
  views_eq no_views no_views = true
  views_eq no_views (next_view w ws) = false
  views_eq (next_view v vs) no_views = false
  views_eq (next_view v vs) (next_view w ws) = view_eq v w && views_eq vs ws

unfoldable pub app_eq : AppRevision → AppRevision → Bool
app_eq a b =
    text_eq a.id b.id
    && text_eq a.workspace_id b.workspace_id
    && text_eq a.name b.name
    && text_eq a.desc b.desc
    && list_eq view_eq a.belongings b.belongings
    && a.version == b.version
    && a.modified_time == b.modified_time
    && a.create_time == b.create_time

unfoldable pub workspace_eq : WorkspaceRevision → WorkspaceRevision → Bool
workspace_eq w v =
    text_eq w.id v.id
    && text_eq w.name v.name
    && text_eq w.desc v.desc
    && list_eq app_eq w.apps v.apps
    && w.modified_time == v.modified_time
    && w.create_time == v.create_time

-- `From<AppRevision>` and `From<ViewRevision>` for `TrashRevision`.
unfoldable pub app_trash : AppRevision → TrashRevision
app_trash a = record {
  id = a.id;
  name = a.name;
  modified_time = a.modified_time;
  create_time = a.create_time;
  ty = trash_app;
}

unfoldable pub view_trash : ViewRevision → TrashRevision
view_trash v = record {
  id = (fields_of v).id;
  name = (fields_of v).name;
  modified_time = (fields_of v).modified_time;
  create_time = (fields_of v).create_time;
  ty = trash_view;
}
