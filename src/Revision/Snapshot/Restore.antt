-- ===== src/Revision/Snapshot/Restore.antt =====
-- What `restore_from_snapshot` of frontend/rust-lib/flowy-revision/src/rev_snapshot.rs reads of what
-- `generate_snapshot_if_need` wrote.
use app_flowy.Prelude.{ℕ, ◌≡◌, some, List, [], ◌∷◌}
use app_flowy.FlowyErrors.{FlowyResult, done}
use app_flowy.OtStr.{Text}
use app_flowy.Revision.{Revision}
use app_flowy.Revision.Snapshot.{Services}

-- The store reads the snapshot that it wrote last, with a base of its own, and combined revisions are
-- read as the revisions that they were made of.
pub record SnapshotLaws {M : Type 0} {D : Type 0} {C : Type 0} {B : Type 0}
    (services : Services M D C) (deserialize : List Revision → FlowyResult B) (base_of : ℕ → ℕ)
    : Type 0 where
  pub read-write :
      (id : ℕ) (bytes : List ℕ) (c c' : C)
      → services.snapshots.write_snapshot id bytes c ≡ done c'
      → services.snapshots.read_last_snapshot c'
        ≡ done (some (record { rev_id = id; base_rev_id = base_of id; bytes = bytes }))
  pub deserialize-combine :
      (rs : List Revision) (r : Revision)
      → services.combine rs ≡ done r.bytes
      → deserialize (r ∷ []) ≡ deserialize rs

-- The revision that is made of a snapshot.
abbrev pub restored : Text → ℕ → ℕ → List ℕ → Revision
restored object_id base_rev_id rev_id bytes = record {
  base_rev_id = base_rev_id;
  rev_id = rev_id;
  bytes = bytes;
  md5 = [];
  object_id = object_id;
}
