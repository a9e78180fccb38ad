-- ===== src/Revision/Persistence.antt =====
-- `RevisionPersistence` of frontend/rust-lib/flowy-revision/src/rev_persistence.rs: the cache, the disk
-- and the sequence of ids that wait for the server. A method returns its result and the state that it
-- leaves, which it changes also where it fails.
pub mod Keeps
use app_flowy.Prelude.{
  ℕ, ◌+◌, ◌-◌, Bool, true, false, Option, none, some, List, [], ◌∷◌, ◌++◌, length, map, leb, ltb,
  ◌==◌, if◌then◌else◌,
}
use app_flowy.OtStr.{Text}
use app_flowy.FlowyErrors.{FlowyResult, done, failed, and_then}
use app_flowy.Revision.{Revision, RevisionRange, range_len, to_rev_ids}
use app_flowy.Revision.Sequence
use app_flowy.Revision.Sequence.{DeferSyncSequence}
use app_flowy.Revision.Merge.{merge_revisions}
use app_flowy.Revision.Memory
use app_flowy.Revision.Memory.{
  RecordMap, DiskCache, RevisionMemoryCache, SyncRecord, RevisionState, sync_state, ack_state,
}

pub record Configuration : Type 0 where
  pub merge_threshold : ℕ
  pub merge_lagging : Bool

abbrev pub default_configuration : Configuration
default_configuration = record { merge_threshold = 100; merge_lagging = false }

-- `RevisionPersistenceConfiguration::new`
unfoldable pub new_configuration : ℕ → Bool → Configuration
new_configuration merge_threshold merge_lagging =
    if ltb 1 merge_threshold
    then record { merge_threshold = merge_threshold; merge_lagging = merge_lagging }
    else record { merge_threshold = 100; merge_lagging = merge_lagging }

pub record RevisionPersistence (M : Type 0) (D : Type 0) : Type 0 where
  pub disk_cache : D
  pub memory_cache : RevisionMemoryCache M
  pub sync_seq : DeferSyncSequence
  pub configuration : Configuration

-- The first of the ids and the last.
unfoldable pub range_of : ℕ → List ℕ → RevisionRange
range_of first [] = record { start = first; end = first }
range_of first (id ∷ ids) = record { start = first; end = (range_of id ids).end }

abbrev pub is_sync : RevisionState → Bool
is_sync sync_state = true
is_sync ack_state = false

abbrev pub unsaved : Revision → SyncRecord
unsaved r = record { revision = r; state = sync_state; write_to_disk = false }

-- The ids that a new revision is merged with, and the sequence without them.
unfoldable pub taken_off : Configuration → DeferSyncSequence → List ℕ × DeferSyncSequence
taken_off configuration s =
    if leb (configuration.merge_threshold - 1) s.compact_length then Sequence.compact s else ([], s)

-- The first record of each id, after those ids were seen.
unfoldable pub first_records : List ℕ → List SyncRecord → List SyncRecord
first_records seen [] = []
first_records seen (r ∷ rs) =
    let rest = first_records (r.revision.rev_id ∷ seen) rs in
    if Memory.is_among r.revision.rev_id seen then rest else r ∷ rest

module _ {M : Type 0} {D : Type 0} (dash : RecordMap M) (disk : DiskCache D) where
  unfoldable pub add :
      Revision → RevisionState → Bool → RevisionPersistence M D → RevisionPersistence M D
  add r state write_to_disk p =
      if Memory.contains dash r.rev_id p.memory_cache then p else record p {
        memory_cache =
            Memory.add dash (record { revision = r; state = state; write_to_disk = write_to_disk })
              p.memory_cache;
      }

  unfoldable pub add_ack_revision : Revision → RevisionPersistence M D → RevisionPersistence M D
  unfolding add
  add_ack_revision r p = add r ack_state true p

  unfoldable pub revisions_in_range :
      RevisionRange → RevisionPersistence M D → FlowyResult (List Revision)
  revisions_in_range range p =
      let records = Memory.get_with_range dash range p.memory_cache in
      if length records == range_len range
      then done (map SyncRecord.revision records)
      else and_then (disk.read_revision_records_with_range range p.disk_cache)
          (λ read. done (map SyncRecord.revision read))

  -- The method `compact`.
  unfoldable pub compact_range :
      RevisionRange
      → Revision
      → RevisionPersistence M D
      → FlowyResult (Unit {0}) × RevisionPersistence M D
  unfolding add
  compact_range range new_revision p =
      let p' = record p { memory_cache = Memory.remove_with_range dash range p.memory_cache } in
      elim (disk.delete_revision_records (some (to_rev_ids range)) p'.disk_cache) [
        | failed e ↦ (failed e, p')
        | done d ↦ (done tt, add new_revision sync_state true (record p' { disk_cache = d }))
      ]

  unfoldable pub sync_revision_records :
      List SyncRecord → RevisionPersistence M D → RevisionPersistence M D
  unfolding add
  sync_revision_records [] p = p
  sync_revision_records (r ∷ rs) p =
      let added = add r.revision sync_state false p in
      sync_revision_records rs (
        if is_sync r.state
        then record added { sync_seq = Sequence.recv r.revision.rev_id added.sync_seq }
        else p)

  unfoldable pub ack_revision : ℕ → RevisionPersistence M D → RevisionPersistence M D
  ack_revision rev_id p = elim (Sequence.ack rev_id p.sync_seq) [
    | failed e ↦ p
    | done s ↦
        let (c, d) = Memory.ack dash disk rev_id p.memory_cache p.disk_cache in
        record p { sync_seq = s; memory_cache = c; disk_cache = d }
  ]

  -- On the disk an id has one record at most.
  unfoldable pub get : ℕ → RevisionPersistence M D → Option SyncRecord
  get rev_id p = elim (Memory.get dash rev_id p.memory_cache) [
    | some r ↦ some r
    | none ↦ elim (disk.read_revision_records (some (rev_id ∷ [])) p.disk_cache) [
      | failed e ↦ none
      | done records ↦ elim records [ [] ↦ none | r ∷ rest ↦ some r ]
    ]
  ]

  unfoldable pub next_sync_revision : RevisionPersistence M D → Option Revision
  unfolding get
  next_sync_revision p = elim (Sequence.next_rev_id p.sync_seq) [
    | none ↦ none
    | some rev_id ↦ elim (get rev_id p) [ none ↦ none | some r ↦ some r.revision ]
  ]

  unfoldable pub reset :
      List Revision → RevisionPersistence M D → FlowyResult (Unit {0}) × RevisionPersistence M D
  reset revisions p =
      let records = map unsaved revisions in
      elim (disk.delete_and_insert_records none records p.disk_cache) [
        | failed e ↦ (failed e, p)
        | done d ↦ (
          done tt,
          record p {
            disk_cache = d;
            memory_cache = Memory.reset_with_revisions dash records p.memory_cache;
            sync_seq = Sequence.clear p.sync_seq;
          },
        )
      ]

  unfoldable pub load_all_records : RevisionPersistence M D → FlowyResult (List SyncRecord)
  unfolding first_records
  load_all_records p =
      and_then (disk.read_revision_records none p.disk_cache)
        (λ records. done (first_records [] records))

  -- The merged revision is received and stored. On an error nothing more is done.
  unfoldable pub store_merged :
      RevisionRange
      → FlowyResult Revision
      → RevisionPersistence M D
      → FlowyResult ℕ × RevisionPersistence M D
  unfolding compact_range
  store_merged range (failed e) p = (failed e, p)
  store_merged range (done merged) p =
      let received = record p { sync_seq = Sequence.recv merged.rev_id p.sync_seq } in
      let (result, p') = compact_range range merged received in
      (and_then result (λ _. done merged.rev_id), p')

  -- The revision is added as it is.
  unfoldable pub store_new :
      Revision → RevisionPersistence M D → FlowyResult ℕ × RevisionPersistence M D
  unfolding add
  store_new r p =
      let added = add r sync_state true p in
      (done r.rev_id, record added { sync_seq = Sequence.merge_recv r.rev_id added.sync_seq })

  module _ (combine : List Revision → FlowyResult (List ℕ)) (object_id : Text) where
    -- The revisions of the range and the new one, merged.
    unfoldable pub merge_range :
        RevisionRange → Revision → RevisionPersistence M D → FlowyResult Revision
    unfolding revisions_in_range
    merge_range range new_revision p =
        and_then (revisions_in_range range p)
          (λ revisions. merge_revisions combine object_id (revisions ++ new_revision ∷ []))

    -- With the ids taken off the sequence, which `p` has lost.
    unfoldable pub add_behind :
        List ℕ → Revision → RevisionPersistence M D → FlowyResult ℕ × RevisionPersistence M D
    unfolding merge_range store_merged store_new range_of
    add_behind [] new_revision p = store_new new_revision p
    add_behind (first ∷ ids) new_revision p =
        let range = range_of first ids in store_merged range (merge_range range new_revision p) p

    unfoldable pub add_local_revision :
        Revision → RevisionPersistence M D → FlowyResult ℕ × RevisionPersistence M D
    unfolding add_behind taken_off
    add_local_revision new_revision p =
        let (ids, left) = taken_off p.configuration p.sync_seq in
        add_behind ids new_revision (record p { sync_seq = left })

    -- The revisions that wait and may be merged are merged on the disk.
    unfoldable pub compact_lagging_revisions :
        RevisionPersistence M D → FlowyResult (Unit {0}) × RevisionPersistence M D
    unfolding range_of revisions_in_range
    compact_lagging_revisions p =
        let compacted = Sequence.compact p.sync_seq in
        let p' = record p { sync_seq = compacted.1 } in
        if p.configuration.merge_lagging
        then elim compacted.0 [
          | [] ↦ (done tt, p')
          | first ∷ ids ↦
              let range = range_of first ids in
              elim (and_then (revisions_in_range range p') (merge_revisions combine object_id)) [
                | failed e ↦ (failed e, p')
                | done merged ↦
                    elim (disk.delete_and_insert_records (some (to_rev_ids range))
                      (record { revision = merged; state = sync_state; write_to_disk = true } ∷ [])
                      p'.disk_cache) [
                        | failed e ↦ (failed e, p')
                        | done d ↦ (done tt, record p' { disk_cache = d })
                      ]
              ]
        ]
        else (done tt, p)
