-- ===== src/Folder/Updates.antt =====
-- Changing an app that can be read: `with_app` finds the workspace by the app, and then again by its own
-- id, so that the `unwrap` behind it is safe where no two workspaces have one id.
use app_flowy.Prelude.{
  ◌≡◌, refl, ap, subst, ◌∙◌, ◌⊎◌, inl, inr, Bool, true, false, Option, none, some, List, [], ◌∷◌,
  All, Bool-cases, Option-cases, arith,
}
use app_flowy.Prelude.Search.{find, any, update_first}
use app_flowy.FlowyErrors.{done}
use app_flowy.OtStr.{Text}
use app_flowy.Attributes.HashMap.{text_eq}
use app_flowy.Attributes.HashMap.Laws.{text_eq_refl}
use app_flowy.Pad.{Libraries, Changeset, Edited, edit_first}
use app_flowy.Pad.Diff.{IsDiff}
use app_flowy.Pad.InSync.{HasJson, IsInSync}
use app_flowy.Pad.Edits.{modify-changed}
use app_flowy.Folder.{AppRevision, WorkspaceRevision, FolderRevision}
use app_flowy.Folder.Edits.{
  FolderPad, found, or_keep, on_workspaces, on_workspace, on_app, workspace_of, find_app, read_app,
}
use app_flowy.Folder.FolderPad

text_eq_comm : (s t : Text) → text_eq s t ≡ text_eq t s
unfolding text_eq
text_eq_comm [] [] = refl
text_eq_comm [] (d ∷ t) = refl
text_eq_comm (c ∷ s) [] = refl
text_eq_comm (c ∷ s) (d ∷ t) = ground (arith, text_eq_comm s t)

-- No two workspaces have one id.
abbrev pub IsApart : List WorkspaceRevision → Type 0
IsApart [] = Unit
IsApart (w ∷ ws) = All (λ (v : WorkspaceRevision). text_eq v.id w.id ≡ false) ws × IsApart ws

All-find :
    {A : Type 0} (P : A → Type 0) (test : A → Bool) (xs : List A) {x : A}
    → All P xs
    → find test xs ≡ some x
    → P x
All-find P test [] h e = cc
All-find P test (y ∷ xs) {x} h e = elim (Bool-cases (test y)) [
  | inl here ↦ subst P (cc (rw here at e)) h.0
  | inr later ↦ All-find P test xs h.1 (rw later at e)
]

any-find :
    {A : Type 0} (test : A → Bool) (xs : List A) {x : A}
    → find test xs ≡ some x
    → any test xs ≡ true
any-find test [] e = cc
any-find test (y ∷ xs) {x} e = ground (arith, any-find test xs {x = x})

any-find-none :
    {A : Type 0} (test : A → Bool) (xs : List A) → find test xs ≡ none → any test xs ≡ false
any-find-none test [] e = refl
any-find-none test (y ∷ xs) e = ground (arith, any-find-none test xs)

module _ (id : Text) (g : AppRevision → AppRevision)
    (keeps_id : (a : AppRevision) → (g a).id ≡ a.id) where
  abbrev change : AppRevision → Edited AppRevision
  change a = (done (some tt), g a)

  abbrev is_it : AppRevision → Bool
  is_it a = text_eq a.id id

  -- The list of apps, with the first of the id changed.
  record InApps (apps : List AppRevision) (a : AppRevision) : Type 0 where
    apps' : List AppRevision
    changes :
        update_first (λ (b : AppRevision). text_eq id b.id) change apps
        ≡ some (done (some tt), apps')
    now : find is_it apps' ≡ some (g a)

  in_apps : (apps : List AppRevision) {a : AppRevision} → find is_it apps ≡ some a → InApps apps a
  in_apps [] e = cc
  in_apps (b ∷ apps) {a} e = elim (Bool-cases (is_it b)) [
    | inl here ↦ record {
      apps' = g b ∷ apps;
      changes = rw (text_eq_comm id b.id, here) refl;
      now =
          let same : b ≡ a = cc (rw here at e) in
          rw (ap (λ i. text_eq i id) (keeps_id b) ∙ here)
            (ap (λ (x : AppRevision). some (g x)) same);
    }
    | inr later ↦
        let r : InApps apps a = in_apps apps (rw later at e) in
        record {
          apps' = b ∷ r.apps';
          changes = rw (text_eq_comm id b.id, later, r.changes) refl;
          now = rw later r.now;
        }
  ]

  -- The workspace that the app is found in, and the workspaces with the app changed.
  record InWorkspaces (ws : List WorkspaceRevision) (a : AppRevision) : Type 0 where
    w : WorkspaceRevision
    ws' : List WorkspaceRevision
    stands : workspace_of id ws ≡ some w
    changes :
        update_first (λ (v : WorkspaceRevision). text_eq w.id v.id) (on_app id change) ws
        ≡ some (done (some tt), ws')
    now : find_app id ws' ≡ some (g a)

  in_workspaces :
      (ws : List WorkspaceRevision) {a : AppRevision}
      → IsApart ws
      → find_app id ws ≡ some a
      → InWorkspaces ws a
  unfolding find_app workspace_of on_app
  in_workspaces [] apart e = cc
  in_workspaces (v ∷ ws) {a} apart e =
      by_apps (λ q. in_workspaces ws apart.1 q) (Option-cases (find is_it v.apps))
    where
      here : find is_it v.apps ≡ some a → InWorkspaces (v ∷ ws) a
      here f =
          let r : InApps v.apps a = in_apps v.apps f in
          record {
            w = v;
            ws' = record v { apps = r.apps' } ∷ ws;
            stands = rw (any-find is_it v.apps f) refl;
            changes = rw (text_eq_refl v.id, edit_first, r.changes) refl;
            now = rw (find_app, r.now) refl;
          }

      later : find is_it v.apps ≡ none → InWorkspaces ws a → InWorkspaces (v ∷ ws) a
      later f r = record {
        w = r.w;
        ws' = v ∷ r.ws';
        stands = rw (any-find-none is_it v.apps f) r.stands;
        changes = rw (other, r.changes) refl;
        now = rw (find_app, f) r.now;
      }
        where
          other : text_eq r.w.id v.id ≡ false
          other =
              All-find (λ (u : WorkspaceRevision). text_eq u.id v.id ≡ false) _ ws apart.0 r.stands

      by_apps :
          (find_app id ws ≡ some a → InWorkspaces ws a)
          → (find is_it v.apps ≡ none) ⊎ ((b : AppRevision) × (find is_it v.apps ≡ some b))
          → InWorkspaces (v ∷ ws) a
      by_apps rest (inl f) = later f (rest (rw (find_app, f) at e))
      by_apps rest (inr (b, f)) = here (f ∙ rw (find_app, f) at e)

  -- The call of `with_app` that changes the app so.
  module _ (libs : Libraries FolderRevision) (law : IsDiff libs.diff) (pad : FolderPad)
      (s : IsInSync libs pad) (apart : IsApart pad.revision.workspaces) where
    pub read_app-with_app :
        {a : AppRevision}
        → read_app id pad ≡ done a
        → HasJson libs (FolderPad.with_app libs id change pad).1.revision
        → (c : Changeset) × ((FolderPad.with_app libs id change pad).0 ≡ done (some c))
          × (read_app id (FolderPad.with_app libs id change pad).1 ≡ done (g a))
    unfolding FolderPad.with_app FolderPad.with_workspace on_workspace on_workspaces read_app
    read_app-with_app {a} e h =
        by_workspace (in_workspaces pad.revision.workspaces apart found_app) h
      where
        found_app : find_app id pad.revision.workspaces ≡ some a
        found_app = elim (Option-cases (find_app id pad.revision.workspaces)) [
          | inl n ↦ cc (rw n at e)
          | inr (b, f) ↦ f ∙ cc (rw f at e)
        ]

        by_workspace :
            InWorkspaces pad.revision.workspaces a
            → HasJson libs (FolderPad.with_app libs id change pad).1.revision
            → (c : Changeset) × ((FolderPad.with_app libs id change pad).0 ≡ done (some c))
              × (read_app id (FolderPad.with_app libs id change pad).1 ≡ done (g a))
        by_workspace r =
            rw (FolderPad.with_app, r.stands)
              λ k.
                let (c, p, q) =
                  modify-changed libs pad (on_workspace r.w.id (on_app id change))
                    {d = record pad.revision { workspaces = r.ws' }} law s
                    (rw (edit_first, r.changes) refl) k in
                (
                  c,
                  p,
                  ap (λ (d : FolderRevision). found (find_app id d.workspaces)) q ∙ ap found r.now,
                )

-- A pad that is in sync and has no two workspaces of one id; an app that can be read, and a folder that
-- has a JSON behind the call: `update_app` gives a changeset, and what is then read is the app with the
-- new name and the new description, where they were given.
pub read_app-update_app :
    (libs : Libraries FolderRevision) (id : Text) (name desc : Option Text) (pad : FolderPad)
    {a : AppRevision}
    → IsDiff libs.diff
    → IsInSync libs pad
    → IsApart pad.revision.workspaces
    → read_app id pad ≡ done a
    → HasJson libs (FolderPad.update_app libs id name desc pad).1.revision
    → (c : Changeset) × ((FolderPad.update_app libs id name desc pad).0 ≡ done (some c))
      × (read_app id (FolderPad.update_app libs id name desc pad).1
          ≡ done (record a { name = or_keep name a.name; desc = or_keep desc a.desc }))
unfolding FolderPad.update_app
read_app-update_app libs id name desc pad law s apart e h =
    read_app-with_app id (λ a. record a { name = or_keep name a.name; desc = or_keep desc a.desc })
      (λ a. refl) libs law pad s apart e h
