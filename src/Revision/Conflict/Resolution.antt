-- ===== src/Revision/Conflict/Resolution.antt =====
-- What is left behind of a push of the server.
use app_flowy.Prelude.{
  ℕ, ◌+◌, ◌≡◌, ◌≢◌, ◌⊎◌, inl, inr, refl, sym, ap, ◌∙◌, Option, none, some, List, [], ◌∷◌, arith,
}
use app_flowy.OtStr.{Text}
use app_flowy.FlowyErrors.{FlowyResult, done, failed, and_next}
use app_flowy.Revision.{Revision}
use app_flowy.Revision.Snapshot.{Services}
use app_flowy.Revision.Manager.{
  RevisionManager, last_rev_id, add_remote_revision, next_rev_id_pair, get_revision,
}
use app_flowy.Revision.Conflict.{
  TransformOperations, ConflictResolver, ConflictState, add_remote_revisions, add_merged,
  make_client_and_server_revision, override, merge, to_apply, resolve, apply_revisions,
  handle_revision,
}

-- The counter as it is, or where a list of revisions ends.
abbrev counter_behind : ℕ → List Revision → ℕ
counter_behind n [] = n
counter_behind n (r ∷ rs) = last_rev_id (r ∷ rs)

and_next-eq-done {ℓ κ} :
    {A : Type ℓ} {B : Type κ} {S : Type 0} (t : FlowyResult A × S) (f : A → S → FlowyResult B × S)
    {b : B}
    → (and_next t f).0 ≡ done b
    → (a : A) × (t.0 ≡ done a) × (and_next t f ≡ f a t.1)
and_next-eq-done (failed e, s) f h = cc
and_next-eq-done (done a, s) f h = (a, refl, refl)

last_rev_id-cons :
    (r : Revision) (rs : List Revision) → last_rev_id (r ∷ rs) ≡ counter_behind r.rev_id rs
unfolding last_rev_id
last_rev_id-cons r [] = refl
last_rev_id-cons r (r' ∷ rs) = refl

module _ {M : Type 0} {D : Type 0} {C : Type 0} (services : Services M D C) where
  add_remote_revision-counter :
      (r : Revision) (m : RevisionManager M D C) {u : Unit {0}}
      → (add_remote_revision services r m).0 ≡ done u
      → (add_remote_revision services r m).1.rev_id_counter ≡ r.rev_id
  unfolding add_remote_revision
  add_remote_revision-counter r m h = ground arith

  add_remote_revisions-counter :
      (rs : List Revision) (m : RevisionManager M D C) {u : Unit {0}}
      → (add_remote_revisions services rs m).0 ≡ done u
      → (add_remote_revisions services rs m).1.rev_id_counter ≡ counter_behind m.rev_id_counter rs
  unfolding add_remote_revisions
  add_remote_revisions-counter [] m h = refl
  add_remote_revisions-counter (r ∷ rs) m h =
      let (u, first, same) =
        and_next-eq-done (add_remote_revision services r m)
          (λ v m'. add_remote_revisions services rs m') h in
      let m' = (add_remote_revision services r m).1 in
      ap (λ q. q.1.rev_id_counter) same
      ∙ add_remote_revisions-counter rs m' (sym (ap (λ q. q.0) same) ∙ h)
      ∙ ap (λ n. counter_behind n rs) (add_remote_revision-counter r m first)
      ∙ sym (last_rev_id-cons r rs)

  module _ {O : Type 0} {R : Type 0} (ops : ConflictResolver O R) where
    add_merged-counter :
        (client server : O) (md5 : Text) (s : ConflictState M D C R) {r : Revision}
        → (add_merged services ops client server md5 s).0 ≡ done (some r)
        → (r.base_rev_id ≡ s.rev_manager.rev_id_counter)
          × (r.rev_id ≡ r.base_rev_id + 1)
          × ((add_merged services ops client server md5 s).1.rev_manager.rev_id_counter ≡ r.rev_id)
    unfolding add_merged make_client_and_server_revision next_rev_id_pair add_remote_revision
    add_merged-counter client server md5 s h = ground arith

    merge-counter :
        (client server : O) (rs : List Revision) (s : ConflictState M D C R) {r : Revision}
        → (merge services ops client server rs s).0 ≡ done (some r)
        → (r.base_rev_id ≡ counter_behind s.rev_manager.rev_id_counter rs)
          × (r.rev_id ≡ r.base_rev_id + 1)
          × ((merge services ops client server rs s).1.rev_manager.rev_id_counter ≡ r.rev_id)
    unfolding merge
    merge-counter client server rs s {r} h =
        let composed = ops.compose_operations client s.resolver in
        let (md5, _, composes) =
          and_next-eq-done (composed.0, record s { resolver = composed.1 }) (λ m s'. behind m s')
            h in
        let s' : ConflictState M D C R = record s { resolver = composed.1 } in
        let added = add_remote_revisions services rs s'.rev_manager in
        let s'' : ConflictState M D C R = record s' { rev_manager = added.1 } in
        let (u, adds, continues) =
          and_next-eq-done (added.0, s'') (λ v t. add_merged services ops client server md5 t)
            (sym (ap (λ q. q.0) composes) ∙ h) in
        let whole = composes ∙ continues in
        let (base, next, counter) =
          add_merged-counter client server md5 s'' (sym (ap (λ q. q.0) whole) ∙ h) in
        (
          base ∙ add_remote_revisions-counter rs s'.rev_manager adds,
          next,
          ap (λ q. q.1.rev_manager.rev_id_counter) whole ∙ counter,
        )
      where
        behind :
            Text → ConflictState M D C R → FlowyResult (Option Revision) × ConflictState M D C R
        behind m t =
            let (added, m') = add_remote_revisions services rs t.rev_manager in
            and_next (added, record t { rev_manager = m' })
              (λ u t'. add_merged services ops client server m t')

    override-none :
        (client : O) (rs : List Revision) (s : ConflictState M D C R) {r : Revision}
        → (override services ops client rs s).0 ≢ done (some r)
    unfolding override
    override-none client rs s h = ground arith

    resolve-counter :
        (t : FlowyResult (TransformOperations O)) (x : Revision) (rs : List Revision)
        (s : ConflictState M D C R) {r : Revision}
        → (resolve services ops t (x ∷ rs) s).0 ≡ done (some r)
        → (r.base_rev_id ≡ last_rev_id (x ∷ rs))
          × (r.rev_id ≡ r.base_rev_id + 1)
          × ((resolve services ops t (x ∷ rs) s).1.rev_manager.rev_id_counter ≡ r.rev_id)
    unfolding resolve
    resolve-counter (failed e) x rs s h = cc
    resolve-counter (done t) x rs s {r} h = by_server t.server_operations h
      where
        by_server :
            (o : Option O)
            → (elim o as (λ _. FlowyResult (Option Revision) × ConflictState M D C R) [
              | none ↦ override services ops t.client_operations (x ∷ rs) s
              | some server_operations ↦
                  merge services ops t.client_operations server_operations (x ∷ rs) s
            ]).0
              ≡ done (some r)
            → (r.base_rev_id ≡ last_rev_id (x ∷ rs))
              × (r.rev_id ≡ r.base_rev_id + 1)
              × ((elim o as (λ _. FlowyResult (Option Revision) × ConflictState M D C R) [
                | none ↦ override services ops t.client_operations (x ∷ rs) s
                | some server_operations ↦
                    merge services ops t.client_operations server_operations (x ∷ rs) s
              ]).1.rev_manager.rev_id_counter
                  ≡ r.rev_id)
        by_server none q = absurd (override-none t.client_operations (x ∷ rs) s q)
        by_server (some o) q = merge-counter t.client_operations o (x ∷ rs) s q

    apply_revisions-counter :
        (rs : List Revision) (s : ConflictState M D C R) {r : Revision}
        → (apply_revisions services ops rs s).0 ≡ done (some r)
        → (r.base_rev_id ≡ last_rev_id rs)
          × (r.rev_id ≡ r.base_rev_id + 1)
          × ((apply_revisions services ops rs s).1.rev_manager.rev_id_counter ≡ r.rev_id)
    unfolding apply_revisions
    apply_revisions-counter [] s h = cc
    apply_revisions-counter (x ∷ rs) s h = resolve-counter _ x rs s h

    apply_revisions-nil :
        (rs : List Revision) (s : ConflictState M D C R) {r : Revision}
        → rs ≡ []
        → (apply_revisions services ops rs s).0 ≢ done (some r)
    unfolding apply_revisions
    apply_revisions-nil [] s e h = cc
    apply_revisions-nil (x ∷ rs) s e h = cc

    to_apply-last :
        (local : Option Revision) (first : Revision) (rest : List Revision)
        → (to_apply local first rest ≡ [])
          ⊎ (last_rev_id (to_apply local first rest) ≡ last_rev_id (first ∷ rest))
    unfolding to_apply last_rev_id
    to_apply-last none first rest = inr refl
    to_apply-last (some mine) first [] = ground arith
    to_apply-last (some mine) first (r ∷ rest) = ground arith

    -- Whenever a push is merged and a revision is made for the server: it stands on the last revision
    -- that was pushed, its id is the next, and the counter is at its id.
    pub handle_revision-counter :
        (first : Revision) (rest : List Revision) (s : ConflictState M D C R) (server : Revision)
        → (handle_revision services ops first rest s).0 ≡ done (some server)
        → (server.base_rev_id ≡ last_rev_id (first ∷ rest))
          × (server.rev_id ≡ server.base_rev_id + 1)
          × ((handle_revision services ops first rest s).1.rev_manager.rev_id_counter
              ≡ server.rev_id)
    unfolding handle_revision
    handle_revision-counter first rest s server h =
        let local = get_revision services first.rev_id s.rev_manager in
        let (base, next, counter) = apply_revisions-counter (to_apply local first rest) s h in
        elim (to_apply-last local first rest) [
          | inl nothing ↦ absurd (apply_revisions-nil (to_apply local first rest) s nothing h)
          | inr same ↦ (base ∙ same, next, counter)
        ]
