-- ===== src/Tests/Folders.antt =====
-- A folder with one workspace and one app, and its edits, at which the theorems are applied.
use app_flowy.Prelude.{
  ℕ, zero, suc, ◌≡◌, refl, sym, ap, subst, ◌∙◌, ◌==◌, if◌then◌else◌, Option, none, some, List, [],
  ◌∷◌, arith,
}
use app_flowy.FlowyErrors.{done, failed, panicked}
use app_flowy.OtStr.{Text}
use app_flowy.Attributes.{empty_operation_attributes}
use app_flowy.Attributes.HashMap.{text_eq}
use app_flowy.Delta.Builder
use app_flowy.Delta.Builder.{build, new_builder}
use app_flowy.Pad.{Libraries, Changeset, modify, from_operations, modified}
use app_flowy.Pad.InSync.{HasJson, IsInSync}
use app_flowy.Pad.Edits.{revision-modify}
use app_flowy.Pad.Remote.{IsRoundTrip, insert-IsDelta}
use app_flowy.Folder.{
  AppRevision, WorkspaceRevision, TrashRevision, FolderRevision, TrashTypeRevision, unknown,
  trash_view, trash_app,
}
use app_flowy.Folder.Edits.{
  FolderPad, read_app, on_trash, find_app, on_workspace, on_workspaces, on_app, workspace_of,
}
use app_flowy.Folder.FolderPad
use app_flowy.Folder.Nested.{IsLinked}
use app_flowy.Folder.Runs.{
  FolderCall, create_trash, delete_trash, create_app, delete_app, run, step, StaysJson,
  run-IsLinked, run-from_operations,
}
use app_flowy.Folder.Updates.{read_app-update_app}
use app_flowy.Tests.Pads.{replacing, replacing-IsDiff, read_back, cons-ne-nil}

-- One JSON for every folder, for edits alone.
abbrev plain : Libraries FolderRevision
plain = record {
  to_json = λ d. some (48 ∷ []);
  from_json = λ json. none;
  diff = replacing;
  md5 = λ d. [];
}

abbrev plain-HasJson : (d : FolderRevision) → HasJson plain d
plain-HasJson d = record {
  json = 48 ∷ [];
  serialized = refl;
  plain = record { bmp = (omega arith, tt); short = omega arith };
  not_empty = cons-ne-nil 48 [];
}

-- Workspace 1 with app 2.
abbrev app : AppRevision
app = record {
  id = 2 ∷ [];
  workspace_id = 1 ∷ [];
  name = 97 ∷ [];
  desc = [];
  belongings = [];
  version = 0;
  modified_time = 0;
  create_time = 0;
}

abbrev workspace : WorkspaceRevision
workspace = record {
  id = 1 ∷ [];
  name = [];
  desc = [];
  apps = app ∷ [];
  modified_time = 0;
  create_time = 0;
}

abbrev pad : FolderPad
pad = record {
  revision = record { workspaces = workspace ∷ []; trash = [] };
  operations = build (Builder.insert (48 ∷ []) new_builder);
}

abbrev pad-IsInSync : IsInSync plain pad
pad-IsInSync = record {
  has_json = plain-HasJson pad.revision;
  delta = insert-IsDelta (48 ∷ []) (record { bmp = (omega arith, tt); short = omega arith });
}

read_app-update_app_example :
    (c : Changeset) × ((FolderPad.update_app plain (2 ∷ []) (some (98 ∷ [])) none pad).0
      ≡ done (some c))
    × (read_app (2 ∷ []) (FolderPad.update_app plain (2 ∷ []) (some (98 ∷ [])) none pad).1
        ≡ done (record app { name = 98 ∷ [] }))
unfolding read_app find_app text_eq
read_app-update_app_example =
    read_app-update_app plain (2 ∷ []) (some (98 ∷ [])) none pad replacing-IsDiff pad-IsInSync
      (tt, tt) refl (plain-HasJson _)

run-IsLinked_example :
    IsLinked ◌≡◌ (run plain (create_app app ∷ delete_app (2 ∷ []) ∷ []) pad).revision
run-IsLinked_example =
    run-IsLinked plain ◌≡◌ (λ id. refl) (create_app app ∷ delete_app (2 ∷ []) ∷ []) pad
      (tt, (tt, tt)) (((refl, tt), tt), tt)

-- A JSON for the folders without workspaces and with nothing in the trash, or one view without a name.
abbrev view_to_json : Text → Text → ℕ → ℕ → TrashTypeRevision → Option Text
view_to_json id [] zero zero trash_view = some (49 ∷ id)
view_to_json id name n m ty = none

abbrev trash_to_json : List WorkspaceRevision → List TrashRevision → Option Text
trash_to_json [] [] = some (48 ∷ [])
trash_to_json [] (t ∷ []) = view_to_json t.id t.name t.modified_time t.create_time t.ty
trash_to_json ws ts = none

abbrev view_in_trash : Text → TrashRevision
view_in_trash id = record {
  id = id;
  name = [];
  modified_time = 0;
  create_time = 0;
  ty = trash_view;
}

abbrev trash_from_json : Text → Option FolderRevision
trash_from_json [] = none
trash_from_json (c ∷ id) =
    some (record { workspaces = []; trash = if c == 48 then [] else view_in_trash id ∷ [] })

abbrev trash_only : Libraries FolderRevision
trash_only = record {
  to_json = λ d. trash_to_json d.workspaces d.trash;
  from_json = trash_from_json;
  diff = replacing;
  md5 = λ d. [];
}

view_round_trip :
    (id name : Text) (n m : ℕ) (ty : TrashTypeRevision) (json : Text)
    → view_to_json id name n m ty ≡ some json
    → trash_from_json json
      ≡ some (record {
        workspaces = [];
        trash = record { id = id; name = name; modified_time = n; create_time = m; ty = ty } ∷ [];
      })
view_round_trip id [] zero zero trash_view json e = sym (ap (read_back trash_from_json) e)
view_round_trip id [] zero zero trash_app json e = cc
view_round_trip id [] zero zero unknown json e = cc
view_round_trip id [] zero (suc m) ty json e = cc
view_round_trip id [] (suc n) m ty json e = cc
view_round_trip id (c ∷ name) n m ty json e = cc

trash_only-IsRoundTrip : IsRoundTrip trash_only
trash_only-IsRoundTrip = record {
  from_json-to_json = λ d json e. by_lists d.workspaces d.trash json e;
}
  where
    by_lists :
        (ws : List WorkspaceRevision) (ts : List TrashRevision) (json : Text)
        → trash_to_json ws ts ≡ some json
        → trash_from_json json ≡ some (record { workspaces = ws; trash = ts })
    by_lists [] [] json e = sym (ap (read_back trash_from_json) e)
    by_lists [] (t ∷ []) json e =
        view_round_trip t.id t.name t.modified_time t.create_time t.ty json e
    by_lists [] (t ∷ u ∷ ts) json e = cc
    by_lists (w ∷ ws) ts json e = cc

abbrev empty : FolderRevision
empty = record { workspaces = []; trash = [] }

abbrev empty-HasJson : HasJson trash_only empty
empty-HasJson = record {
  json = 48 ∷ [];
  serialized = refl;
  plain = record { bmp = (omega arith, tt); short = omega arith };
  not_empty = cons-ne-nil 48 [];
}

abbrev empty_pad : FolderPad
empty_pad = record { revision = empty; operations = build (Builder.insert (48 ∷ []) new_builder) }

abbrev empty_pad-IsInSync : IsInSync trash_only empty_pad
empty_pad-IsInSync = record {
  has_json = empty-HasJson;
  delta = insert-IsDelta (48 ∷ []) (record { bmp = (omega arith, tt); short = omega arith });
}

-- A view goes to the trash, and the trash is emptied.
abbrev calls : List FolderCall
calls = create_trash (view_in_trash (98 ∷ []) ∷ []) ∷ delete_trash none ∷ []

abbrev first_pad : FolderPad
first_pad = (step trash_only (create_trash (view_in_trash (98 ∷ []) ∷ [])) empty_pad).1

first_revision :
    first_pad.revision ≡ record { workspaces = []; trash = view_in_trash (98 ∷ []) ∷ [] }
unfolding step FolderPad.create_trash on_trash
first_revision = revision-modify trash_only _ empty_pad

second_revision : (step trash_only (delete_trash none) first_pad).1.revision ≡ empty
unfolding step FolderPad.delete_trash on_trash
second_revision =
    revision-modify trash_only _ first_pad
    ∙ ap (λ (d : FolderRevision). record d { trash = [] }) first_revision

calls-HasJson : StaysJson trash_only calls empty_pad
calls-HasJson = (
  subst (HasJson trash_only) (sym first_revision) (record {
    json = 49 ∷ 98 ∷ [];
    serialized = refl;
    plain = record { bmp = (omega arith, (omega arith, tt)); short = omega arith };
    not_empty = cons-ne-nil 49 (98 ∷ []);
  }),
  (subst (HasJson trash_only) (sym second_revision) empty-HasJson, tt),
)

run-from_operations_example :
    from_operations trash_only (run trash_only calls empty_pad).operations
    ≡ done (run trash_only calls empty_pad)
run-from_operations_example =
    run-from_operations trash_only calls empty_pad replacing-IsDiff trash_only-IsRoundTrip
      empty_pad-IsInSync calls-HasJson

-- Two workspaces of one id, the second with the app: the workspace that is found by its id is the
-- first, and the `unwrap` panics.
unwrap_panics :
    (FolderPad.update_app plain (2 ∷ []) none none (record pad {
      revision = record {
        workspaces = record workspace { apps = [] } ∷ workspace ∷ [];
        trash = [];
      };
    })).0
    ≡ failed panicked
unfolding FolderPad.update_app FolderPad.with_app FolderPad.with_workspace workspace_of on_workspace
    on_workspaces on_app modify modified text_eq
unwrap_panics = refl
