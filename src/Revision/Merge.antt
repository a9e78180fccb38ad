-- ===== src/Revision/Merge.antt =====
-- `RevisionMergeable` of frontend/rust-lib/flowy-revision/src/rev_manager.rs: revisions merged into one.
-- `combine_revisions`, which each kind of object implements for its operations, is a parameter.
use app_flowy.Prelude.{ℕ, arith, ◌≡◌, List, [], ◌∷◌}
use app_flowy.OtStr.{Text}
use app_flowy.FlowyErrors.{FlowyResult, done, failed, internal_error, and_then}
use app_flowy.Revision.{Revision, pair_rev_id}

-- The last of a list that is not empty.
unfoldable pub last_of : Revision → List Revision → Revision
last_of r [] = r
last_of r (r' ∷ rs) = last_of r' rs

unfoldable pub merge_revisions :
    (List Revision → FlowyResult (List ℕ)) → Text → List Revision → FlowyResult Revision
unfolding last_of
merge_revisions combine object_id [] = failed internal_error
merge_revisions combine object_id (r ∷ []) = done r
merge_revisions combine object_id (r ∷ r' ∷ rs) =
    let (base_rev_id, rev_id) = pair_rev_id r in
    let md5 = (last_of r (r' ∷ rs)).md5 in
    and_then (combine (r ∷ r' ∷ rs)) λ bytes. done (record {
      base_rev_id = base_rev_id;
      rev_id = rev_id;
      bytes = bytes;
      md5 = md5;
      object_id = object_id;
    })

-- Revisions that are merged take the ids of the first of them and the checksum of the last.
pub merge_revisions-ids :
    (combine : List Revision → FlowyResult (List ℕ)) (object_id : Text) (r : Revision)
    (rs : List Revision) (merged : Revision)
    → merge_revisions combine object_id (r ∷ rs) ≡ done merged
    → (pair_rev_id merged ≡ pair_rev_id r) × (merged.md5 ≡ (last_of r rs).md5)
unfolding merge_revisions
merge_revisions-ids combine object_id r [] merged h = ground arith
merge_revisions-ids combine object_id r (r' ∷ rs) merged h = ground arith
