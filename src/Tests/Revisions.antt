-- ===== src/Tests/Revisions.antt =====
-- Revisions in a map and on a disk that are lists, at which the theorems are applied.
use app_flowy.Prelude.{
  ℕ, ◌-◌, ◌≤◌, ◌<◌, ◌≡◌, ◌≢◌, ◌⊎◌, refl, Bool, true, false, not, ◌&&◌, Option, none, some, List, [],
  ◌∷◌, ◌++◌, length, leb, ◌==◌, if◌then◌else◌, All, arith,
}
use app_flowy.FlowyErrors.{FlowyResult, done, failed, internal_error}
use app_flowy.Revision.{Revision}
use app_flowy.Revision.Sequence
use app_flowy.Revision.Sequence.{DeferSyncSequence, compact, recv, clear, ack}
use app_flowy.Revision.Sequence.Order.{
  IsOrdered, SyncCall, receive, merge_receive, acknowledge, merge, run, run-IsOrdered, ack-run,
}
use app_flowy.Revision.Merge
use app_flowy.Revision.Memory
use app_flowy.Revision.Memory.{
  RevisionState, sync_state, SyncRecord, RecordMap, DiskCache, RevisionMemoryCache, is_among,
}
use app_flowy.Revision.Memory.Lookup.{RecordMapLaws, get-remove_with_range}
use app_flowy.Revision.Persistence
use app_flowy.Revision.Persistence.{RevisionPersistence}
use app_flowy.Revision.Persistence.Keeps.{
  IsSound, add_local_revision-IsSound, add_local_revision-failed,
}
use app_flowy.Revision.Snapshot.{Services, SnapshotCache, SnapshotController, generates_every}
use app_flowy.Revision.Manager.{RevisionManager, reset_object}
use app_flowy.Revision.Snapshot.{RevisionSnapshot}
use app_flowy.Revision.Manager.Counter.{reset_object-counter}

-- The last record that was put in stands first.
abbrev pub Records : Type 0
Records = List (ℕ × SyncRecord)

unfoldable pub lookup : ℕ → Records → Option SyncRecord
lookup id [] = none
lookup id ((k, r) ∷ m) = if id == k then some r else lookup id m

unfoldable pub without : ℕ → Records → Records
without id [] = []
without id ((k, r) ∷ m) = let rest = without id m in if id == k then rest else (k, r) ∷ rest

unfoldable pub is_there : Option SyncRecord → Bool
is_there none = false
is_there (some r) = true

unfoldable pub records : RecordMap Records
unfolding lookup without is_there
records = record {
  empty = [];
  contains_key = λ id m. is_there (lookup id m);
  get = lookup;
  insert = λ id r m. (id, r) ∷ without id m;
  remove = without;
  len = length;
}

lookup-without :
    (id k : ℕ) (m : Records) → lookup id (without k m) ≡ (if id == k then none else lookup id m)
unfolding lookup without
lookup-without id k [] = ground arith
lookup-without id k ((j, r) ∷ m) = ground (arith, lookup-without id k m)

lookup-insert :
    (id k : ℕ) (r : SyncRecord) (m : Records)
    → lookup id ((k, r) ∷ without k m) ≡ (if id == k then some r else lookup id m)
unfolding lookup
lookup-insert id k r m = ground (arith, lookup-without id k m)

records_laws : RecordMapLaws Records records
unfolding records
records_laws = record { get-insert = lookup-insert; get-remove = lookup-without }

-- The records of a disk whose ids a test picks.
unfoldable pub picked : (ℕ → Bool) → List SyncRecord → List SyncRecord
picked test [] = []
picked test (r ∷ rs) =
    let rest = picked test rs in if test r.revision.rev_id then r ∷ rest else rest

unfoldable pub changed : List (ℕ × RevisionState) → SyncRecord → SyncRecord
changed [] r = r
changed ((id, s) ∷ cs) r =
    changed cs (if r.revision.rev_id == id then record r { state = s } else r)

unfoldable pub with_states : List (ℕ × RevisionState) → List SyncRecord → List SyncRecord
unfolding changed
with_states changes [] = []
with_states changes (r ∷ rs) = changed changes r ∷ with_states changes rs

unfoldable pub in_ids : Option (List ℕ) → ℕ → Bool
unfolding is_among
in_ids none id = true
in_ids (some ids) id = is_among id ids

unfoldable pub disk : DiskCache (List SyncRecord)
unfolding picked with_states in_ids
disk = record {
  create_revision_records = λ rs d. done (d ++ rs);
  read_revision_records = λ ids d. done (picked (in_ids ids) d);
  read_revision_records_with_range =
      λ range d. done (picked (λ id. leb range.start id && leb id range.end) d);
  update_revision_record = λ changes d. done (with_states changes d);
  delete_revision_records = λ ids d. done (picked (λ id. not (in_ids ids id)) d);
  delete_and_insert_records = λ ids rs d. done (picked (λ id. not (in_ids ids id)) d ++ rs);
}

-- A revision on the one before it.
abbrev pub revision_at : ℕ → Revision
revision_at n = record { base_rev_id = n - 1; rev_id = n; bytes = n ∷ []; md5 = []; object_id = [] }

abbrev pub saved_at : ℕ → SyncRecord
saved_at n = record { revision = revision_at n; state = sync_state; write_to_disk = true }

abbrev pub cached : RevisionMemoryCache Records
cached = record {
  revs_map = (3, saved_at 3) ∷ (2, saved_at 2) ∷ (1, saved_at 1) ∷ [];
  defer_write_revs = [];
  defer_save = false;
}

run-IsOrdered_example :
    IsOrdered
      (run
        (receive 3 ∷ merge_receive 1 ∷ merge_receive 4 ∷ acknowledge 3 ∷ merge ∷ [])
        Sequence.new).rev_ids
run-IsOrdered_example =
    run-IsOrdered (receive 3 ∷ merge_receive 1 ∷ merge_receive 4 ∷ acknowledge 3 ∷ merge ∷ [])

-- 1 and 2 wait, and 2 may be merged.
abbrev waiting : DeferSyncSequence
waiting = record { rev_ids = 1 ∷ 2 ∷ []; compact_index = some 1; compact_length = 1 }

abbrev behind_ack : DeferSyncSequence
behind_ack = record { rev_ids = 2 ∷ []; compact_index = some 1; compact_length = 1 }

abbrev two_calls : List SyncCall
two_calls = receive 1 ∷ merge_receive 2 ∷ []

ack_succeeds : ack 1 (run two_calls Sequence.new) ≡ done behind_ack
unfolding run ack recv Sequence.merge_recv
ack_succeeds = refl

ack-run_example :
    (((run two_calls Sequence.new).rev_ids ≡ []) × (behind_ack ≡ run two_calls Sequence.new))
    ⊎ (((run two_calls Sequence.new).rev_ids ≡ 1 ∷ behind_ack.rev_ids)
        × All (λ y. 1 < y) behind_ack.rev_ids)
ack-run_example = ack-run two_calls 1 behind_ack ack_succeeds

get-remove_with_range_example :
    Memory.get records 2 (Memory.remove_with_range records (record { start = 2; end = 3 }) cached)
    ≡ (if leb 2 2 && leb 2 3 then none else Memory.get records 2 cached)
get-remove_with_range_example =
    get-remove_with_range records records_laws (record { start = 2; end = 3 }) 2 cached

-- The number of the first revision.
abbrev combine_none : List Revision → FlowyResult (List ℕ)
combine_none rs = failed internal_error

abbrev pub combine_some : List Revision → FlowyResult (List ℕ)
combine_some rs = done (7 ∷ [])

abbrev pub ready : RevisionPersistence Records (List SyncRecord)
ready = record {
  disk_cache = [];
  memory_cache = cached;
  sync_seq = record { rev_ids = 1 ∷ 2 ∷ 3 ∷ []; compact_index = some 1; compact_length = 2 };
  configuration = record { merge_threshold = 3; merge_lagging = false };
}

ready-IsSound : IsSound 3 ready.sync_seq
unfolding IsOrdered
ready-IsSound = record { order = (omega arith, (omega arith, tt)); below = omega arith }

add_local_revision-IsSound_example :
    IsSound 3
      (Persistence.add_local_revision records disk combine_some [] (revision_at 4) ready).1.sync_seq
add_local_revision-IsSound_example =
    add_local_revision-IsSound records disk combine_some [] (revision_at 4) ready (omega arith)
      ready-IsSound

combining_fails :
    (Persistence.add_local_revision records disk combine_none [] (revision_at 4) ready).0
    ≡ failed internal_error
unfolding Persistence.add_local_revision compact Memory.get_with_range records Merge.merge_revisions
combining_fails = refl

add_local_revision-failed_example :
    ((compact ready.sync_seq).0 ≢ [])
    × (((Persistence.add_local_revision records disk combine_none []
            (revision_at 4)
            ready).1.sync_seq
          ≡ (compact ready.sync_seq).1)
        ⊎ ((id : ℕ) × ((Persistence.add_local_revision records disk combine_none []
                (revision_at 4)
                ready).1.sync_seq
              ≡ recv id (compact ready.sync_seq).1)))
add_local_revision-failed_example =
    add_local_revision-failed records disk combine_none [] (revision_at 4) ready combining_fails

unfoldable pub last_of : List (ℕ × List ℕ) → Option RevisionSnapshot
last_of [] = none
last_of ((id, bytes) ∷ c) = some (record { rev_id = id; base_rev_id = id - 1; bytes = bytes })

-- A store that keeps the snapshots, as those of any object do, every 10 ids.
abbrev pub snapshots : SnapshotCache (List (ℕ × List ℕ))
snapshots = record {
  should_generate_snapshot_from_range = generates_every 10;
  write_snapshot = λ id bytes c. done ((id, bytes) ∷ c);
  read_last_snapshot = λ c. done (last_of c);
}

abbrev pub services : Services Records (List SyncRecord) (List (ℕ × List ℕ))
services = record { dash = records; disk = disk; snapshots = snapshots; combine = combine_some }

abbrev pub at_two : SnapshotController (List (ℕ × List ℕ))
at_two = record { store = []; start_rev_id = 2 }

-- Objects that are the bytes of their revisions.
unfoldable all_bytes : List Revision → List ℕ
all_bytes [] = []
all_bytes (r ∷ rs) = r.bytes ++ all_bytes rs

abbrev joined : List Revision → FlowyResult (List ℕ)
joined rs = done (all_bytes rs)

abbrev joining : Services Records (List SyncRecord) (List (ℕ × List ℕ))
joining = record services { combine = joined }

abbrev stored : RevisionPersistence Records (List SyncRecord)
stored = record ready { disk_cache = saved_at 1 ∷ saved_at 2 ∷ [] }

abbrev pub manager : RevisionManager Records (List SyncRecord) (List (ℕ × List ℕ))
manager = record {
  object_id = 111 ∷ [];
  rev_id_counter = 3;
  rev_persistence = ready;
  rev_snapshot = at_two;
}

abbrev pushed : List Revision
pushed = revision_at 6 ∷ revision_at 5 ∷ []

resetting_succeeds : (reset_object services pushed manager).0 ≡ done tt
unfolding reset_object Persistence.reset disk
resetting_succeeds = refl

reset_object-counter_example :
    ((reset_object services pushed manager).1.rev_persistence.sync_seq ≡ clear ready.sync_seq)
    × All (λ r. r.rev_id ≤ (reset_object services pushed manager).1.rev_id_counter) pushed
reset_object-counter_example = reset_object-counter services pushed manager resetting_succeeds
