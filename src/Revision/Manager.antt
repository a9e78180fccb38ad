-- ===== src/Revision/Manager.antt =====
-- `RevisionManager` of frontend/rust-lib/flowy-revision/src/rev_manager.rs, with the command of
-- src/rev_queue.rs there. The queue handles one command at a time; the caller waits for the answer, so
-- that a call is the sending and the handling at once. A method returns its result and the state.
pub mod Counter
use app_flowy.Prelude.{
  ℕ, ◌+◌, ◌-◌, Option, none, some, List, [], ◌∷◌, map, ltb, is_nil, if◌then◌else◌,
}
use app_flowy.OtStr.{Text}
use app_flowy.FlowyErrors.{FlowyError, FlowyResult, done, failed, internal_error}
use app_flowy.Revision.{Revision, RevisionRange}
use app_flowy.Revision.Memory.{SyncRecord}
use app_flowy.Revision.Persistence
use app_flowy.Revision.Persistence.{RevisionPersistence}
use app_flowy.Revision.Snapshot.{
  SnapshotController, Services, generate_snapshot_if_need, restore_from_snapshot,
}

pub record RevisionManager (M : Type 0) (D : Type 0) (C : Type 0) : Type 0 where
  pub object_id : Text
  pub rev_id_counter : ℕ
  pub rev_persistence : RevisionPersistence M D
  pub rev_snapshot : SnapshotController C

-- The greatest id, not less than the given one.
unfoldable pub greatest_id : ℕ → List Revision → ℕ
greatest_id rev_id [] = rev_id
greatest_id rev_id (r ∷ rs) = greatest_id (if ltb rev_id r.rev_id then r.rev_id else rev_id) rs

unfoldable pub pair_rev_id_from_revisions : List Revision → ℕ × ℕ
unfolding greatest_id
pair_rev_id_from_revisions revisions =
    let rev_id = greatest_id 0 revisions in
    if ltb 0 rev_id then (rev_id - 1, rev_id) else (0, rev_id)

-- The id of the last revision, or 0.
unfoldable pub last_rev_id : List Revision → ℕ
last_rev_id [] = 0
last_rev_id (r ∷ []) = r.rev_id
last_rev_id (r ∷ r' ∷ rs) = last_rev_id (r' ∷ rs)

module _ {M : Type 0} {D : Type 0} {C : Type 0} where
  -- `RevIdCounter::next_id`
  unfoldable pub next_id : RevisionManager M D C → ℕ × RevisionManager M D C
  next_id m = let rev_id = m.rev_id_counter + 1 in (rev_id, record m { rev_id_counter = rev_id })

  unfoldable pub next_rev_id_pair : RevisionManager M D C → (ℕ × ℕ) × RevisionManager M D C
  unfolding next_id
  next_rev_id_pair m = let (next, m') = next_id m in ((m.rev_id_counter, next), m')

module _ {M : Type 0} {D : Type 0} {C : Type 0} (services : Services M D C) where
  open services use {dash, disk, combine}

  -- `RevQueue::handle_command`, with what it answers.
  unfoldable pub handle_command :
      List ℕ → Text → RevisionManager M D C → FlowyResult ℕ × RevisionManager M D C
  unfolding next_id
  handle_command bytes md5 m =
      let (rev_id, m') = next_id m in
      let revision : Revision = record {
        base_rev_id = m.rev_id_counter;
        rev_id = rev_id;
        bytes = bytes;
        md5 = md5;
        object_id = m.object_id;
      } in
      let (result, p) =
        Persistence.add_local_revision dash disk combine m.object_id revision m'.rev_persistence in
      let m'' = record m' { rev_persistence = p } in
      elim result [
        | failed e ↦ (failed e, m'')
        | done new_rev_id ↦ (done new_rev_id, record m'' { rev_id_counter = new_rev_id })
      ]

  -- Where the command fails, the channel is dropped without an answer.
  abbrev pub answer : FlowyResult ℕ × RevisionManager M D C → FlowyResult ℕ × RevisionManager M D C
  answer (failed e, m) = (failed internal_error, m)
  answer (done rev_id, m) = (done rev_id, m)

  unfoldable pub add_local_revision :
      List ℕ → Text → RevisionManager M D C → FlowyResult ℕ × RevisionManager M D C
  unfolding handle_command
  add_local_revision bytes md5 m =
      if is_nil bytes
      then (failed internal_error, m)
      else answer (
          handle_command bytes md5 (record m {
            rev_snapshot =
                generate_snapshot_if_need services m.rev_id_counter m.rev_persistence
                  m.rev_snapshot;
          }))

  unfoldable pub add_remote_revision :
      Revision → RevisionManager M D C → FlowyResult (Unit {0}) × RevisionManager M D C
  add_remote_revision r m = if is_nil r.bytes then (failed internal_error, m) else (
    done tt,
    record m {
      rev_persistence = Persistence.add_ack_revision dash disk r m.rev_persistence;
      rev_id_counter = r.rev_id;
    },
  )

  unfoldable pub reset_object :
      List Revision → RevisionManager M D C → FlowyResult (Unit {0}) × RevisionManager M D C
  unfolding pair_rev_id_from_revisions
  reset_object revisions m =
      let rev_id = (pair_rev_id_from_revisions revisions).1 in
      let (result, p) = Persistence.reset dash disk revisions m.rev_persistence in
      let m' = record m { rev_persistence = p } in
      elim result [
        | failed e ↦ (failed e, m')
        | done u ↦ (done tt, record m' { rev_id_counter = rev_id })
      ]

  unfoldable pub ack_revision : ℕ → RevisionManager M D C → RevisionManager M D C
  ack_revision rev_id m = record m {
    rev_persistence = Persistence.ack_revision dash disk rev_id m.rev_persistence;
  }

  unfoldable pub get_revision : ℕ → RevisionManager M D C → Option Revision
  get_revision rev_id m = elim (Persistence.get dash disk rev_id m.rev_persistence) [
    | none ↦ none
    | some r ↦ some r.revision
  ]

  unfoldable pub next_sync_revision : RevisionManager M D C → Option Revision
  next_sync_revision m = Persistence.next_sync_revision dash disk m.rev_persistence

  unfoldable pub get_revisions_in_range :
      RevisionRange → RevisionManager M D C → FlowyResult (List Revision)
  get_revisions_in_range range m = Persistence.revisions_in_range dash disk range m.rev_persistence

  unfoldable pub close : RevisionManager M D C → RevisionManager M D C
  close m = record m {
    rev_persistence =
        (Persistence.compact_lagging_revisions dash disk combine m.object_id m.rev_persistence).1;
  }

  module _ {B : Type 0} (deserialize : List Revision → FlowyResult B)
      (recover : List Revision → Option B) where
    -- The object could not be read, with the error `e`.
    unfoldable pub restore :
        FlowyError → List Revision → RevisionManager M D C → FlowyResult B × RevisionManager M D C
    restore e revisions m =
        elim (restore_from_snapshot services m.object_id deserialize m.rev_snapshot) [
          | none ↦ (elim (recover revisions) [ none ↦ failed e | some object ↦ done object ], m)
          | some (object, snapshot_rev) ↦ (
            done object,
            record m {
              rev_persistence =
                  (Persistence.reset dash disk (snapshot_rev ∷ []) m.rev_persistence).1;
              rev_id_counter = snapshot_rev.rev_id;
            },
          )
        ]

    unfoldable pub initialize : RevisionManager M D C → FlowyResult B × RevisionManager M D C
    unfolding restore last_rev_id
    initialize m = elim (Persistence.load_all_records dash disk m.rev_persistence) [
      | failed e ↦ (failed e, m)
      | done records ↦
          let revisions = map SyncRecord.revision records in
          elim (deserialize revisions) [
            | failed e ↦ restore e revisions m
            | done object ↦ (
              done object,
              record m {
                rev_persistence =
                    Persistence.sync_revision_records dash disk records m.rev_persistence;
                rev_id_counter = last_rev_id revisions;
              },
            )
          ]
    ]
