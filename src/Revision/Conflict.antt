-- ===== src/Revision/Conflict.antt =====
-- `ConflictController` of frontend/rust-lib/flowy-revision/src/conflict_resolve.rs: what the server
-- pushes, against what was edited here. The operations and the resolver, which each kind of object
-- implements, are parameters with their state. The provider's source, whose state the manager is, keeps
-- the manager here: it is passed beside the provider.
pub mod Resolution
use app_flowy.Prelude.{ℕ, Option, none, some, List, [], ◌∷◌, if◌then◌else◌}
use app_flowy.OtStr.{Text}
use app_flowy.Attributes.HashMap.{text_eq}
use app_flowy.FlowyErrors.{FlowyResult, done, failed, and_then, and_next}
use app_flowy.Revision.{Revision, RevisionRange}
use app_flowy.Revision.Snapshot.{Services}
use app_flowy.Revision.Manager.{
  RevisionManager, get_revision, add_remote_revision, reset_object, next_rev_id_pair,
  get_revisions_in_range,
}
use app_flowy.Revision.Provider.{ClientRevisionWsData, from_revisions}

pub record TransformOperations (O : Type 0) : Type 0 where
  pub client_operations : O
  pub server_operations : Option O

-- `ConflictResolver`, with the two traits of its operations. An MD5 is a text.
pub record ConflictResolver (O : Type 0) (R : Type 0) : Type 0 where
  pub compose_operations : O → R → FlowyResult Text × R
  pub transform_operations : O → R → FlowyResult (TransformOperations O)
  pub reset_operations : O → R → FlowyResult Text × R
  pub deserialize_revisions : List Revision → FlowyResult O
  pub serialize_operations : O → List ℕ

-- The manager and the object that the resolver edits.
pub record ConflictState (M : Type 0) (D : Type 0) (C : Type 0) (R : Type 0) : Type 0 where
  pub rev_manager : RevisionManager M D C
  pub resolver : R

-- What is left to apply of the pushed revisions, given the local one with the id of the first.
unfoldable pub to_apply : Option Revision → Revision → List Revision → List Revision
to_apply none first rest = first ∷ rest
to_apply (some mine) first rest = if text_eq mine.md5 first.md5 then rest else []

module _ {M : Type 0} {D : Type 0} {C : Type 0} (services : Services M D C) where
  unfoldable pub add_remote_revisions :
      List Revision → RevisionManager M D C → FlowyResult (Unit {0}) × RevisionManager M D C
  add_remote_revisions [] m = (done tt, m)
  add_remote_revisions (r ∷ rs) m =
      and_next (add_remote_revision services r m) (λ u m'. add_remote_revisions rs m')

  module _ {O : Type 0} {R : Type 0} (ops : ConflictResolver O R) where
    -- Both revisions have the same ids.
    unfoldable pub make_client_and_server_revision :
        O → O → Text → RevisionManager M D C → (Revision × Revision) × RevisionManager M D C
    make_client_and_server_revision client_operations server_operations md5 m =
        let ((base_rev_id, rev_id), m') = next_rev_id_pair m in
        let made : O → Revision = λ o. record {
          base_rev_id = base_rev_id;
          rev_id = rev_id;
          bytes = ops.serialize_operations o;
          md5 = md5;
          object_id = m.object_id;
        } in
        ((made client_operations, made server_operations), m')

    -- The server's operations are none: its revisions override the object here.
    unfoldable pub override :
        O
        → List Revision
        → ConflictState M D C R
        → FlowyResult (Option Revision) × ConflictState M D C R
    override client_operations revisions s =
        let (reset, resolver) = ops.reset_operations client_operations s.resolver in
        and_next (reset, record s { resolver = resolver })
          (λ md5 s'.
            let (result, m) = reset_object services revisions s'.rev_manager in
            (and_then result (λ u. done none), record s' { rev_manager = m }))

    -- The client's revision is added, and the server's is to be sent.
    unfoldable pub add_merged :
        O → O → Text → ConflictState M D C R → FlowyResult (Option Revision) × ConflictState M D C R
    unfolding make_client_and_server_revision
    add_merged client_operations server_operations md5 s =
        let ((client_revision, server_revision), m) =
          make_client_and_server_revision client_operations server_operations md5 s.rev_manager in
        let (result, m') = add_remote_revision services client_revision m in
        (and_then result (λ u. done (some server_revision)), record s { rev_manager = m' })

    -- Both are applied, each behind the other.
    unfoldable pub merge :
        O
        → O
        → List Revision
        → ConflictState M D C R
        → FlowyResult (Option Revision) × ConflictState M D C R
    unfolding add_merged add_remote_revisions
    merge client_operations server_operations revisions s =
        let (composed, resolver) = ops.compose_operations client_operations s.resolver in
        and_next (composed, record s { resolver = resolver })
          (λ md5 s'.
            let (added, m) = add_remote_revisions revisions s'.rev_manager in
            and_next (added, record s' { rev_manager = m })
              (λ u s''. add_merged client_operations server_operations md5 s''))

    -- With the transformed operations, or the error of making them.
    unfoldable pub resolve :
        FlowyResult (TransformOperations O)
        → List Revision
        → ConflictState M D C R
        → FlowyResult (Option Revision) × ConflictState M D C R
    unfolding override merge
    resolve (failed e) revisions s = (failed e, s)
    resolve (done t) revisions s = elim t.server_operations [
      | none ↦ override t.client_operations revisions s
      | some server_operations ↦ merge t.client_operations server_operations revisions s
    ]

    -- The revisions that are left of those pushed.
    unfoldable pub apply_revisions :
        List Revision
        → ConflictState M D C R
        → FlowyResult (Option Revision) × ConflictState M D C R
    unfolding resolve
    apply_revisions [] s = (done none, s)
    apply_revisions (r ∷ rs) s =
        let transformed =
          and_then (ops.deserialize_revisions (r ∷ rs))
            (λ new_operations. ops.transform_operations new_operations s.resolver) in
        resolve transformed (r ∷ rs) s

    unfoldable pub handle_revision :
        Revision
        → List Revision
        → ConflictState M D C R
        → FlowyResult (Option Revision) × ConflictState M D C R
    unfolding to_apply apply_revisions
    handle_revision first rest s =
        apply_revisions (to_apply (get_revision services first.rev_id s.rev_manager) first rest) s

    -- What is to be sent to the server, if anything.
    unfoldable pub receive_revisions :
        List Revision
        → ConflictState M D C R
        → FlowyResult (Option ClientRevisionWsData) × ConflictState M D C R
    unfolding handle_revision
    receive_revisions [] s = (done none, s)
    receive_revisions (first ∷ rest) s =
        and_next (handle_revision first rest s) (λ server_revision s'. elim server_revision [
          | none ↦ (done none, s')
          | some r ↦ (done (some (from_revisions s'.rev_manager.object_id (r ∷ []))), s')
        ])

    unfoldable pub send_revisions :
        RevisionRange → ConflictState M D C R → FlowyResult ClientRevisionWsData
    send_revisions range s =
        and_then (get_revisions_in_range services range s.rev_manager)
          (λ revisions. done (from_revisions s.rev_manager.object_id revisions))
