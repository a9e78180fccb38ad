-- ===== src/Revision/Persistence/Keeps.antt =====
-- What adding a local revision keeps of the sequence, and what it leaves behind where it fails.
use app_flowy.Prelude.{
  ℕ, ◌+◌, ◌<◌, ◌≡◌, ◌≢◌, ◌⊎◌, inl, inr, refl, ap, subst, Bool, true, List, [], ◌∷◌, arith,
}
use app_flowy.OtStr.{Text}
use app_flowy.FlowyErrors.{FlowyError, FlowyResult, done, failed}
use app_flowy.Revision.{Revision, RevisionRange}
use app_flowy.Revision.Sequence.{DeferSyncSequence, recv, merge_recv, compact}
use app_flowy.Revision.Sequence.Order.{
  IsOrdered, recv-IsOrdered, merge_recv-IsOrdered, compact-IsOrdered,
}
use app_flowy.Revision.Memory.{RecordMap, DiskCache, RevisionState, sync_state}
use app_flowy.Revision.Persistence.{
  RevisionPersistence, Configuration, taken_off, add_behind, add, compact_range, range_of,
  store_merged, store_new, merge_range, add_local_revision,
}

-- The ids of a sequence are in order, and those that may be merged are fewer than the threshold.
pub record IsSound (threshold : ℕ) (s : DeferSyncSequence) : Type 0 where
  pub order : IsOrdered s.rev_ids
  pub below : s.compact_length < threshold

taken_off-IsSound :
    (c : Configuration) (s : DeferSyncSequence)
    → 1 < c.merge_threshold
    → IsSound c.merge_threshold s
    → IsOrdered (taken_off c s).1.rev_ids
      × ((taken_off c s).1.compact_length + 1 < c.merge_threshold)
unfolding taken_off compact
taken_off-IsSound c s t h = ground (arith, compact-IsOrdered s h.order)

taken_off-compact :
    (c : Configuration) (s : DeferSyncSequence) → (taken_off c s).0 ≢ [] → taken_off c s ≡ compact s
unfolding taken_off
taken_off-compact c s h = ground arith

merge_recv-below :
    (id : ℕ) (s : DeferSyncSequence) → (merge_recv id s).compact_length ≡ s.compact_length + 1
unfolding merge_recv recv
merge_recv-below id s = ground arith

recv-below : (id : ℕ) (s : DeferSyncSequence) → (recv id s).compact_length ≡ s.compact_length
unfolding recv
recv-below id s = ground arith

-- What the two ways to end leave of the sequence: the new id is received by what `compact` leaves, or
-- nothing more is done.
module _ {M : Type 0} {D : Type 0} (dash : RecordMap M) (disk : DiskCache D) where
  add-sync_seq :
      (r : Revision) (state : RevisionState) (w : Bool) (p : RevisionPersistence M D)
      → (add dash disk r state w p).sync_seq ≡ p.sync_seq
  unfolding add
  add-sync_seq r state w p = ground arith

  add-configuration :
      (r : Revision) (state : RevisionState) (w : Bool) (p : RevisionPersistence M D)
      → (add dash disk r state w p).configuration ≡ p.configuration
  unfolding add
  add-configuration r state w p = ground arith

  compact_range-sync_seq :
      (range : RevisionRange) (r : Revision) (p : RevisionPersistence M D)
      → (compact_range dash disk range r p).1.sync_seq ≡ p.sync_seq
  unfolding compact_range
  compact_range-sync_seq range r p = ground arith

  store_merged-cases :
      (range : RevisionRange) (merged : FlowyResult Revision) (p : RevisionPersistence M D)
      → ((store_merged dash disk range merged p).1.sync_seq ≡ p.sync_seq)
        ⊎ ((id : ℕ) × ((store_merged dash disk range merged p).1.sync_seq ≡ recv id p.sync_seq))
  unfolding store_merged
  store_merged-cases range (failed e) p = inl refl
  store_merged-cases range (done merged) p =
      inr (merged.rev_id, compact_range-sync_seq range merged _)

  store_new-sync_seq :
      (r : Revision) (p : RevisionPersistence M D)
      → (store_new dash disk r p).1.sync_seq ≡ merge_recv r.rev_id p.sync_seq
  unfolding store_new
  store_new-sync_seq r p = ap (merge_recv r.rev_id) (add-sync_seq r sync_state true p)

  module _ (combine : List Revision → FlowyResult (List ℕ)) (object_id : Text) where
    -- What is left of the sequence by the call that adds behind the ids taken off.
    add_behind-cases :
        (ids : List ℕ) (r : Revision) (p : RevisionPersistence M D)
        → ((add_behind dash disk combine object_id ids r p).1.sync_seq ≡ p.sync_seq)
          ⊎ ((id : ℕ) × (((add_behind dash disk combine object_id ids r p).1.sync_seq
                  ≡ recv id p.sync_seq)
                ⊎ ((add_behind dash disk combine object_id ids r p).1.sync_seq
                    ≡ merge_recv id p.sync_seq)))
    unfolding add_behind
    add_behind-cases [] r p = inr (r.rev_id, inr (store_new-sync_seq r p))
    add_behind-cases (first ∷ ids) r p =
        elim (store_merged-cases (range_of first ids)
          (merge_range dash disk combine object_id (range_of first ids) r p) p) [
            | inl same ↦ inl same
            | inr (id, e) ↦ inr (id, inl e)
          ]

    -- Where the ids in the sequence are in order and those that may be merged are fewer than a
    -- threshold above 1, the same holds behind `add_local_revision`, on every branch, the errors
    -- included.
    pub add_local_revision-IsSound :
        (r : Revision) (p : RevisionPersistence M D)
        → 1 < p.configuration.merge_threshold
        → IsSound p.configuration.merge_threshold p.sync_seq
        → IsSound p.configuration.merge_threshold
            (add_local_revision dash disk combine object_id r p).1.sync_seq
    unfolding add_local_revision
    add_local_revision-IsSound r p t h =
        let (order, below) = taken_off-IsSound p.configuration p.sync_seq t h in
        elim (add_behind-cases (taken_off p.configuration p.sync_seq).0 r
          (record p { sync_seq = (taken_off p.configuration p.sync_seq).1 })) [
            | inl same ↦ rw same (record { order = order; below = omega arith })
            | inr (id, inl e) ↦ rw e (record {
              order = recv-IsOrdered id _ order;
              below = omega (arith, recv-below id (taken_off p.configuration p.sync_seq).1);
            })
            | inr (id, inr e) ↦ rw e (record {
              order = merge_recv-IsOrdered id _ order;
              below = omega (arith, merge_recv-below id (taken_off p.configuration p.sync_seq).1);
            })
          ]

    add_behind-failed :
        (ids : List ℕ) (r : Revision) (p : RevisionPersistence M D) {e : FlowyError}
        → (add_behind dash disk combine object_id ids r p).0 ≡ failed e
        → (ids ≢ [])
          × (((add_behind dash disk combine object_id ids r p).1.sync_seq ≡ p.sync_seq)
              ⊎ ((id : ℕ) × ((add_behind dash disk combine object_id ids r p).1.sync_seq
                    ≡ recv id p.sync_seq)))
    unfolding add_behind store_new
    add_behind-failed [] r p h = cc
    add_behind-failed (first ∷ ids) r p h = (
      λ q. cc,
      store_merged-cases (range_of first ids)
          (merge_range dash disk combine object_id (range_of first ids) r p) p,
    )

    -- Whenever `add_local_revision` fails, the ids that `compact` takes off the sequence are off it,
    -- and there were some: the sequence is as `compact` leaves it, or one id was received behind that.
    -- The state is not the one before the call.
    pub add_local_revision-failed :
        (r : Revision) (p : RevisionPersistence M D) {e : FlowyError}
        → (add_local_revision dash disk combine object_id r p).0 ≡ failed e
        → ((compact p.sync_seq).0 ≢ [])
          × (((add_local_revision dash disk combine object_id r p).1.sync_seq
                ≡ (compact p.sync_seq).1)
              ⊎ ((id : ℕ) × ((add_local_revision dash disk combine object_id r p).1.sync_seq
                    ≡ recv id (compact p.sync_seq).1)))
    unfolding add_local_revision
    add_local_revision-failed r p {e} h =
        let (some_off, left) =
          add_behind-failed (taken_off p.configuration p.sync_seq).0 r
            (record p { sync_seq = (taken_off p.configuration p.sync_seq).1 }) h in
        let same = taken_off-compact p.configuration p.sync_seq some_off in
        let after = (add_local_revision dash disk combine object_id r p).1.sync_seq in
        subst (λ q. (q.0 ≢ []) × ((after ≡ q.1) ⊎ ((id : ℕ) × (after ≡ recv id q.1)))) same
          (some_off, left)
