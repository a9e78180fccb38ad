-- ===== src/Revision/Memory.antt =====
-- frontend/rust-lib/flowy-revision/src/cache/memory.rs, over the records of
-- frontend/rust-lib/flowy-revision-persistence/src/lib.rs. The concurrent map is another library's: its
-- methods are a parameter, and so is the disk. The task that `tick_checkpoint` starts after a delay is
-- `checkpoint`, and `defer_save` tells whether there is one.
pub mod Lookup
use app_flowy.Prelude.{
  ℕ, ◌+◌, Bool, true, false, not, ◌&&◌, Option, none, some, List, [], ◌∷◌, ◌++◌, is_nil, ◌==◌,
  if◌then◌else◌,
}
use app_flowy.FlowyErrors.{FlowyResult, done, failed}
use app_flowy.Revision.{Revision, RevisionRange, to_rev_ids}

pub data RevisionState : Type 0 where
  sync_state ack_state : RevisionState

pub record SyncRecord : Type 0 where
  pub revision : Revision
  pub state : RevisionState
  pub write_to_disk : Bool

abbrev pub acked : SyncRecord → SyncRecord
acked r = record r { state = ack_state }

-- The methods of the map that are called here.
pub record RecordMap (M : Type 0) : Type 0 where
  pub empty : M
  pub contains_key : ℕ → M → Bool
  pub get : ℕ → M → Option SyncRecord
  pub insert : ℕ → SyncRecord → M → M
  pub remove : ℕ → M → M
  pub len : M → ℕ

-- `RevisionDiskCache`, for one object.
pub record DiskCache (D : Type 0) : Type 0 where
  pub create_revision_records : List SyncRecord → D → FlowyResult D
  pub read_revision_records : Option (List ℕ) → D → FlowyResult (List SyncRecord)
  pub read_revision_records_with_range : RevisionRange → D → FlowyResult (List SyncRecord)
  pub update_revision_record : List (ℕ × RevisionState) → D → FlowyResult D
  pub delete_revision_records : Option (List ℕ) → D → FlowyResult D
  pub delete_and_insert_records : Option (List ℕ) → List SyncRecord → D → FlowyResult D

pub record RevisionMemoryCache (M : Type 0) : Type 0 where
  pub revs_map : M
  pub defer_write_revs : List ℕ
  pub defer_save : Bool

unfoldable pub is_among : ℕ → List ℕ → Bool
is_among id [] = false
is_among id (x ∷ xs) = if x == id then true else is_among id xs

-- The records that are to be written.
unfoldable pub to_write : List SyncRecord → List SyncRecord
to_write [] = []
to_write (r ∷ rs) = let rest = to_write rs in if r.write_to_disk then r ∷ rest else rest

module _ {M : Type 0} where
  unfoldable pub tick_checkpoint : RevisionMemoryCache M → RevisionMemoryCache M
  tick_checkpoint c = record c { defer_save = not (is_nil c.defer_write_revs) }

module _ {M : Type 0} (map : RecordMap M) where
  unfoldable pub new_cache : RevisionMemoryCache M
  new_cache = record { revs_map = map.empty; defer_write_revs = []; defer_save = false }

  unfoldable pub contains : ℕ → RevisionMemoryCache M → Bool
  contains rev_id c = map.contains_key rev_id c.revs_map

  unfoldable pub add : SyncRecord → RevisionMemoryCache M → RevisionMemoryCache M
  unfolding is_among tick_checkpoint
  add r c =
      let rev_id = r.revision.rev_id in
      let c' = record c { revs_map = map.insert rev_id r c.revs_map } in
      if is_among rev_id c.defer_write_revs
      then c'
      else tick_checkpoint (record c' { defer_write_revs = c.defer_write_revs ++ rev_id ∷ [] })

  unfoldable pub get : ℕ → RevisionMemoryCache M → Option SyncRecord
  get rev_id c = map.get rev_id c.revs_map

  unfoldable pub remove : ℕ → RevisionMemoryCache M → RevisionMemoryCache M
  remove rev_id c = record c { revs_map = map.remove rev_id c.revs_map }

  unfoldable pub remove_all : List ℕ → RevisionMemoryCache M → RevisionMemoryCache M
  unfolding remove
  remove_all [] c = c
  remove_all (id ∷ ids) c = remove_all ids (remove id c)

  unfoldable pub remove_with_range : RevisionRange → RevisionMemoryCache M → RevisionMemoryCache M
  unfolding remove_all to_rev_ids
  remove_with_range range c = remove_all (to_rev_ids range) c

  -- The records of those ids that are there.
  unfoldable pub get_all : List ℕ → RevisionMemoryCache M → List SyncRecord
  get_all [] c = []
  get_all (id ∷ ids) c =
      let rest = get_all ids c in elim (map.get id c.revs_map) [ none ↦ rest | some r ↦ r ∷ rest ]

  unfoldable pub get_with_range : RevisionRange → RevisionMemoryCache M → List SyncRecord
  unfolding get_all to_rev_ids
  get_with_range range c = get_all (to_rev_ids range) c

  unfoldable pub number_of_sync_records : RevisionMemoryCache M → ℕ
  number_of_sync_records c = map.len c.revs_map

  unfoldable pub insert_all : List SyncRecord → RevisionMemoryCache M → RevisionMemoryCache M
  insert_all [] c = c
  insert_all (r ∷ rs) c = insert_all rs (record c {
    revs_map = map.insert r.revision.rev_id r c.revs_map;
    defer_write_revs = c.defer_write_revs ++ r.revision.rev_id ∷ [];
  })

  unfoldable pub reset_with_revisions :
      List SyncRecord → RevisionMemoryCache M → RevisionMemoryCache M
  unfolding insert_all tick_checkpoint new_cache
  reset_with_revisions records c = tick_checkpoint (insert_all records new_cache)

  module _ {D : Type 0} (disk : DiskCache D) where
    -- `receive_ack` of the delegate. An error is logged.
    unfoldable pub receive_ack : ℕ → D → D
    receive_ack rev_id d = elim (disk.update_revision_record ((rev_id, ack_state) ∷ []) d) [
      | failed e ↦ d
      | done d' ↦ d'
    ]

    unfoldable pub ack : ℕ → RevisionMemoryCache M → D → RevisionMemoryCache M × D
    unfolding is_among tick_checkpoint receive_ack
    ack rev_id c d =
        let c' : RevisionMemoryCache M = elim (map.get rev_id c.revs_map) [
          | none ↦ c
          | some r ↦ record c { revs_map = map.insert rev_id (acked r) c.revs_map }
        ] in
        if is_among rev_id c.defer_write_revs
        then (tick_checkpoint c', d)
        else (c', receive_ack rev_id d)

    -- `send_sync` of the delegate.
    unfoldable pub send_sync : List SyncRecord → D → FlowyResult D
    unfolding to_write
    send_sync records d =
        let saved = to_write records in
        if is_nil saved then done d else disk.create_revision_records saved d

    unfoldable pub checkpoint : RevisionMemoryCache M → D → RevisionMemoryCache M × D
    unfolding get_all send_sync
    checkpoint c d = elim (send_sync (get_all c.defer_write_revs c) d) [
      | failed e ↦ (c, d)
      | done d' ↦ (record c { defer_write_revs = [] }, d')
    ]
