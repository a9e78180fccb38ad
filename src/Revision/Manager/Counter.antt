-- ===== src/Revision/Manager/Counter.antt =====
-- The counter of ids behind the manager's methods.
use app_flowy.Prelude.{ℕ, ◌+◌, ◌≤◌, ◌≡◌, List, [], ◌∷◌, All, ltb, if◌then◌else◌, arith}
use app_flowy.OtStr.{Text}
use app_flowy.FlowyErrors.{done, failed}
use app_flowy.Revision.{Revision}
use app_flowy.Revision.Sequence.{clear}
use app_flowy.Revision.Persistence
use app_flowy.Revision.Snapshot.{Services}
use app_flowy.Revision.Manager.{RevisionManager, greatest_id, handle_command, reset_object}

greatest_id-le :
    (rev_id : ℕ) (rs : List Revision)
    → (rev_id ≤ greatest_id rev_id rs) × All (λ r. r.rev_id ≤ greatest_id rev_id rs) rs
unfolding greatest_id
greatest_id-le rev_id [] = (omega arith, tt)
greatest_id-le rev_id (r ∷ rs) =
    ground (arith, greatest_id-le (if ltb rev_id r.rev_id then r.rev_id else rev_id) rs)

module _ {M : Type 0} {D : Type 0} {C : Type 0} (services : Services M D C) where
  -- Behind a command that succeeds the counter is the id that it answers, which may lie below the one
  -- before; behind one that fails it is one above the counter before, though no revision has that id.
  pub handle_command-counter :
      (bytes : List ℕ) (md5 : Text) (m : RevisionManager M D C)
      → (handle_command services bytes md5 m).1.rev_id_counter
        ≡ (elim (handle_command services bytes md5 m).0 [
          | done id ↦ id
          | failed e ↦ m.rev_id_counter + 1
        ])
  unfolding handle_command
  handle_command-counter bytes md5 m = ground arith

  reset_object-sync :
      (revisions : List Revision) (m : RevisionManager M D C)
      → (reset_object services revisions m).0 ≡ done tt
      → ((reset_object services revisions m).1.rev_persistence.sync_seq
          ≡ clear m.rev_persistence.sync_seq)
        × ((reset_object services revisions m).1.rev_id_counter ≡ greatest_id 0 revisions)
  unfolding reset_object Persistence.reset
  reset_object-sync revisions m h = ground arith

  -- Where `reset_object` succeeds, no id waits for the server, and no revision of the list has an id
  -- above the counter.
  pub reset_object-counter :
      (revisions : List Revision) (m : RevisionManager M D C)
      → (reset_object services revisions m).0 ≡ done tt
      → ((reset_object services revisions m).1.rev_persistence.sync_seq
          ≡ clear m.rev_persistence.sync_seq)
        × All (λ r. r.rev_id ≤ (reset_object services revisions m).1.rev_id_counter) revisions
  reset_object-counter revisions m h =
      let (cleared, counter) = reset_object-sync revisions m h in
      (cleared, rw counter (greatest_id-le 0 revisions).1)
