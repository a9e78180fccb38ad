-- ===== src/Tests/Pushes.antt =====
-- A push of the server and data for it, at which the theorems are applied.
use app_flowy.Prelude.{ℕ, ◌+◌, ◌≡◌, refl, none, some, List, [], ◌∷◌}
use app_flowy.FlowyErrors.{done}
use app_flowy.Attributes.HashMap.{text_eq}
use app_flowy.Revision.{Revision}
use app_flowy.Revision.Memory
use app_flowy.Revision.Memory.{SyncRecord}
use app_flowy.Revision.Persistence
use app_flowy.Revision.Manager.{last_rev_id, get_revision, add_remote_revision, next_rev_id_pair}
use app_flowy.Revision.Conflict.{ConflictResolver, ConflictState, handle_revision}
use app_flowy.Revision.Conflict.Resolution.{handle_revision-counter}
use app_flowy.Revision.Provider.{ClientRevisionWsData, DataSource, custom, revision, from_revisions}
use app_flowy.Revision.Provider.Alternation.{turns, turns_for, holding, turns-all}
use app_flowy.Tests.Revisions.{Records, records, disk, revision_at, manager, services}

-- Operations are a list of numbers, and an object is what was composed with it last.
abbrev resolver : ConflictResolver (List ℕ) (List ℕ)
resolver = record {
  compose_operations = λ o r. (done o, o);
  transform_operations = λ o r. done (record { client_operations = o; server_operations = some r });
  reset_operations = λ o r. (done o, o);
  deserialize_revisions = λ rs. done (8 ∷ []);
  serialize_operations = λ o. o;
}

abbrev edited : ConflictState Records (List SyncRecord) (List (ℕ × List ℕ)) (List ℕ)
edited = record { rev_manager = manager; resolver = 9 ∷ [] }

abbrev for_server : Revision
for_server = record {
  base_rev_id = 6;
  rev_id = 7;
  bytes = 9 ∷ [];
  md5 = 8 ∷ [];
  object_id = 111 ∷ [];
}

merges :
    (handle_revision services resolver (revision_at 5) (revision_at 6 ∷ []) edited).0
    ≡ done (some for_server)
unfolding handle_revision get_revision Persistence.get Memory.get records add_remote_revision
    next_rev_id_pair text_eq disk
merges = refl

handle_revision-counter_example :
    (6 ≡ last_rev_id (revision_at 5 ∷ revision_at 6 ∷ []))
    × (◌≡◌ {A = ℕ} 7 (6 + 1))
    × ((handle_revision services resolver
          (revision_at 5)
          (revision_at 6 ∷ [])
          edited).1.rev_manager.rev_id_counter
        ≡ 7)
handle_revision-counter_example =
    handle_revision-counter services resolver (revision_at 5) (revision_at 6 ∷ []) edited for_server
      merges

-- A source with no revisions.
abbrev source : DataSource ℕ
source = record {
  next_revision = λ n. done none;
  ack_revision = λ id n. done n;
  current_rev_id = λ n. n;
}

abbrev data_at : ℕ → ClientRevisionWsData
unfolding from_revisions
data_at n = from_revisions [] (revision_at n ∷ [])

turns-all_example :
    turns source
      (turns_for revision (data_at 1 ∷ data_at 2 ∷ []))
      (holding [] 5 revision (data_at 1 ∷ data_at 2 ∷ []))
    ≡ (data_at 1 ∷ data_at 2 ∷ [], holding [] 5 custom [])
turns-all_example = turns-all source [] 5 revision (data_at 1) (data_at 2 ∷ [])
