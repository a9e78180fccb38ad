-- ===== src/Revision/Sequence/Order.antt =====
-- The order of the ids in the sequence, over any run of its methods.
use app_flowy.Prelude.{
  ℕ, zero, suc, ◌<◌, ◌≡◌, refl, false, List, [], ◌∷◌, ◌++◌, take, All, Bool-cases, inl, inr, ◌⊎◌,
  arith,
}
use app_flowy.FlowyErrors.{FlowyResult, done, failed}
use app_flowy.Revision.Sequence.{
  DeferSyncSequence, new, back, refuses, recv, merge_recv, ack, clear, kept, compact,
}

-- Every id is less than the next.
unfoldable pub IsOrdered : List ℕ → Type 0
IsOrdered [] = Unit
IsOrdered (x ∷ []) = Unit
IsOrdered (x ∷ y ∷ xs) = (x < y) × IsOrdered (y ∷ xs)

pub data SyncCall : Type 0 where
  receive merge_receive acknowledge : ℕ → SyncCall
  reset merge : SyncCall

-- The state behind one call. An acknowledgement that is refused changes nothing.
unfoldable pub step : SyncCall → DeferSyncSequence → DeferSyncSequence
step (receive id) s = recv id s
step (merge_receive id) s = merge_recv id s
step (acknowledge id) s = elim (ack id s) [ failed e ↦ s | done s' ↦ s' ]
step reset s = clear s
step merge s = (compact s).1

unfoldable pub run : List SyncCall → DeferSyncSequence → DeferSyncSequence
unfolding step
run [] s = s
run (c ∷ cs) s = run cs (step c s)

IsOrdered-snoc :
    (xs : List ℕ) (n : ℕ) → IsOrdered xs → refuses (back xs) n ≡ false → IsOrdered (xs ++ n ∷ [])
unfolding IsOrdered back
IsOrdered-snoc [] n h r = tt
IsOrdered-snoc (x ∷ []) n h r = (ground arith, tt)
IsOrdered-snoc (x ∷ y ∷ xs) n h r = (h.0, IsOrdered-snoc (y ∷ xs) n h.1 r)

pub recv-IsOrdered :
    (n : ℕ) (s : DeferSyncSequence) → IsOrdered s.rev_ids → IsOrdered (recv n s).rev_ids
unfolding recv
recv-IsOrdered n s h = elim (Bool-cases (refuses (back s.rev_ids) n)) [
  | inl r ↦ rw r h
  | inr r ↦ rw r (IsOrdered-snoc s.rev_ids n h r)
]

IsOrdered-tail : (x : ℕ) (xs : List ℕ) → IsOrdered (x ∷ xs) → IsOrdered xs
unfolding IsOrdered
IsOrdered-tail x [] h = tt
IsOrdered-tail x (y ∷ xs) h = h.1

IsOrdered-take : (k : ℕ) (xs : List ℕ) → IsOrdered xs → IsOrdered (take k xs)
unfolding IsOrdered
IsOrdered-take zero xs h = tt
IsOrdered-take (suc k) [] h = tt
IsOrdered-take (suc zero) (x ∷ xs) h = tt
IsOrdered-take (suc (suc k)) (x ∷ []) h = tt
IsOrdered-take (suc (suc k)) (x ∷ y ∷ xs) h = (h.0, IsOrdered-take (suc k) (y ∷ xs) h.1)

-- The first id is less than all that follow.
IsOrdered-All : (x : ℕ) (xs : List ℕ) → IsOrdered (x ∷ xs) → All (λ y. x < y) xs
unfolding IsOrdered
IsOrdered-All x [] h = tt
IsOrdered-All x (y ∷ xs) h = (h.0, above x y xs h.0 (IsOrdered-All y xs h.1))
  where
    above : (x y : ℕ) (xs : List ℕ) → x < y → All (λ z. y < z) xs → All (λ z. x < z) xs
    above x y [] l h = tt
    above x y (z ∷ xs) l h = (omega arith, above x y xs l h.1)

-- What a successful acknowledgement takes off the sequence.
ack-cases :
    (n : ℕ) (s s' : DeferSyncSequence)
    → ack n s ≡ done s'
    → ((s.rev_ids ≡ []) × (s' ≡ s)) ⊎ (s.rev_ids ≡ n ∷ s'.rev_ids)
unfolding ack
ack-cases n s s' h = by_ids s.rev_ids refl
  where
    by_ids :
        (ids : List ℕ)
        → s.rev_ids ≡ ids
        → ((s.rev_ids ≡ []) × (s' ≡ s)) ⊎ (s.rev_ids ≡ n ∷ s'.rev_ids)
    by_ids [] e = ground arith
    by_ids (x ∷ ids) e = ground arith

pub merge_recv-IsOrdered :
    (n : ℕ) (s : DeferSyncSequence) → IsOrdered s.rev_ids → IsOrdered (merge_recv n s).rev_ids
unfolding merge_recv
merge_recv-IsOrdered n s h = recv-IsOrdered n s h

pub compact-IsOrdered :
    (s : DeferSyncSequence) → IsOrdered s.rev_ids → IsOrdered (compact s).1.rev_ids
unfolding compact
compact-IsOrdered s h = IsOrdered-take (kept s.compact_index s.rev_ids) s.rev_ids h

step-IsOrdered :
    (c : SyncCall) (s : DeferSyncSequence) → IsOrdered s.rev_ids → IsOrdered (step c s).rev_ids
unfolding step clear IsOrdered
step-IsOrdered (receive n) s h = recv-IsOrdered n s h
step-IsOrdered (merge_receive n) s h = merge_recv-IsOrdered n s h
step-IsOrdered (acknowledge n) s h = by_result (ack n s) refl
  where
    by_result :
        (r : FlowyResult DeferSyncSequence)
        → ack n s ≡ r
        → IsOrdered (elim r as (λ _. DeferSyncSequence) [ failed e ↦ s | done s' ↦ s' ]).rev_ids
    by_result (failed e) q = h
    by_result (done s') q = elim (ack-cases n s s' q) [
      | inl (_, same) ↦ rw same h
      | inr split ↦ IsOrdered-tail n s'.rev_ids (rw split at h)
    ]
step-IsOrdered reset s h = tt
step-IsOrdered merge s h = compact-IsOrdered s h

run_from-IsOrdered :
    (cs : List SyncCall) (s : DeferSyncSequence)
    → IsOrdered s.rev_ids
    → IsOrdered (run cs s).rev_ids
unfolding run
run_from-IsOrdered [] s h = h
run_from-IsOrdered (c ∷ cs) s h = run_from-IsOrdered cs (step c s) (step-IsOrdered c s h)

-- After any calls from the empty sequence, whatever ids they bring, each id that waits is less than
-- the next.
pub run-IsOrdered : (cs : List SyncCall) → IsOrdered (run cs new).rev_ids
unfolding IsOrdered
run-IsOrdered cs = run_from-IsOrdered cs new tt

-- After any calls from the empty sequence, an acknowledgement that succeeds is for the first id that
-- waits, or none waits; it takes that one off, and every id that still waits is greater.
pub ack-run :
    (cs : List SyncCall) (n : ℕ) (s' : DeferSyncSequence)
    → ack n (run cs new) ≡ done s'
    → (((run cs new).rev_ids ≡ []) × (s' ≡ run cs new))
      ⊎ (((run cs new).rev_ids ≡ n ∷ s'.rev_ids) × All (λ y. n < y) s'.rev_ids)
ack-run cs n s' h = elim (ack-cases n (run cs new) s' h) [
  | inl none_left ↦ inl none_left
  | inr split ↦ inr (split, IsOrdered-All n s'.rev_ids (rw split at (run-IsOrdered cs)))
]
