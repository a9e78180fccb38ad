-- ===== src/Revision/Snapshot.antt =====
-- `RevisionSnapshotController` of frontend/rust-lib/flowy-revision/src/rev_snapshot.rs. The store of the
-- snapshots is a parameter, and so is `combine_revisions`; a failed write is ignored.
pub mod Restore
use app_flowy.Prelude.{
  ℕ, ◌-◌, ◌<◌, ◌≤◌, ◌≡◌, Bool, Option, none, some, List, [], ◌∷◌, map, leb, is_nil, if◌then◌else◌,
}
use app_flowy.FlowyErrors.{FlowyResult, done, failed}
use app_flowy.OtStr.{Text}
use app_flowy.Revision.{Revision}
use app_flowy.Revision.Memory.{SyncRecord, RecordMap, DiskCache}
use app_flowy.Revision.Persistence.{RevisionPersistence, load_all_records}

pub record RevisionSnapshot : Type 0 where
  pub rev_id : ℕ
  pub base_rev_id : ℕ
  pub bytes : List ℕ

-- `RevisionSnapshotDiskCache`
pub record SnapshotCache (C : Type 0) : Type 0 where
  pub should_generate_snapshot_from_range : ℕ → ℕ → Bool
  pub write_snapshot : ℕ → List ℕ → C → FlowyResult C
  pub read_last_snapshot : C → FlowyResult (Option RevisionSnapshot)

pub record SnapshotController (C : Type 0) : Type 0 where
  pub store : C
  pub start_rev_id : ℕ

-- The method that the trait gives; documents and folders have the same test with a number of theirs.
abbrev pub generates_every : ℕ → ℕ → ℕ → Bool
generates_every n start_rev_id current_rev_id = leb n (current_rev_id - start_rev_id)

-- What the manager of an object calls: the map of its cache, its disk, its snapshots, and
-- `combine_revisions`.
pub record Services (M : Type 0) (D : Type 0) (C : Type 0) : Type 0 where
  pub dash : RecordMap M
  pub disk : DiskCache D
  pub snapshots : SnapshotCache C
  pub combine : List Revision → FlowyResult (List ℕ)

module _ {M : Type 0} {D : Type 0} {C : Type 0} (services : Services M D C) where
  open services use {dash, disk, snapshots, combine}

  -- The data, where there are revisions and they can be combined.
  unfoldable pub generate_snapshot_data : RevisionPersistence M D → Option (List ℕ)
  generate_snapshot_data p = elim (load_all_records dash disk p) [
    | failed e ↦ none
    | done records ↦
        if is_nil records then none else elim (combine (map SyncRecord.revision records)) [
          | failed e ↦ none
          | done bytes ↦ some bytes
        ]
  ]

  unfoldable pub write : ℕ → Option (List ℕ) → C → C
  write rev_id none c = c
  write rev_id (some bytes) c = elim (snapshots.write_snapshot rev_id bytes c) [
    | failed e ↦ c
    | done c' ↦ c'
  ]

  unfoldable pub generate_snapshot :
      ℕ → RevisionPersistence M D → SnapshotController C → SnapshotController C
  unfolding write generate_snapshot_data
  generate_snapshot rev_id p s = record s {
    store = write rev_id (generate_snapshot_data p) s.store;
  }

  unfoldable pub generate_snapshot_if_need :
      ℕ → RevisionPersistence M D → SnapshotController C → SnapshotController C
  unfolding generate_snapshot
  generate_snapshot_if_need current_rev_id p s =
      if leb current_rev_id s.start_rev_id
      then s
      else if snapshots.should_generate_snapshot_from_range s.start_rev_id current_rev_id
      then record (generate_snapshot current_rev_id p s) { start_rev_id = current_rev_id }
      else s

  -- The object of the last snapshot, and the revision made from it.
  unfoldable pub restore_from_snapshot :
      {B : Type 0}
      → Text
      → (List Revision → FlowyResult B)
      → SnapshotController C
      → Option (B × Revision)
  restore_from_snapshot object_id deserialize s = elim (snapshots.read_last_snapshot s.store) [
    | failed e ↦ none
    | done none ↦ none
    | done (some snapshot) ↦
        let r : Revision = record {
          base_rev_id = snapshot.base_rev_id;
          rev_id = snapshot.rev_id;
          bytes = snapshot.bytes;
          md5 = [];
          object_id = object_id;
        } in
        elim (deserialize (r ∷ [])) [ failed e ↦ none | done object ↦ some (object, r) ]
  ]
