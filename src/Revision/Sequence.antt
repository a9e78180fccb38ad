-- ===== src/Revision/Sequence.antt =====
-- `DeferSyncSequence` of frontend/rust-lib/flowy-revision/src/rev_persistence.rs: the ids that wait for
-- the server, and where those start that may be merged into one.
pub mod Order
use app_flowy.Prelude.{
  ℕ, ◌+◌, ◌-◌, Bool, false, ◌&&◌, Option, none, some, List, [], ◌∷◌, ◌++◌, length, get_elem?, take,
  drop, ltb, leb, ◌==◌, if◌then◌else◌,
}
use app_flowy.FlowyErrors.{FlowyResult, done, failed, internal_error}

pub record DeferSyncSequence : Type 0 where
  pub rev_ids : List ℕ
  pub compact_index : Option ℕ
  pub compact_length : ℕ

abbrev pub new : DeferSyncSequence
new = record { rev_ids = []; compact_index = none; compact_length = 0 }

-- `VecDeque::back`
unfoldable pub back : List ℕ → Option ℕ
back [] = none
back (x ∷ []) = some x
back (x ∷ y ∷ xs) = back (y ∷ xs)

-- Whether the last id is not less than the new one.
abbrev pub refuses : Option ℕ → ℕ → Bool
refuses none new_rev_id = false
refuses (some rev_id) new_rev_id = leb new_rev_id rev_id

unfoldable pub recv : ℕ → DeferSyncSequence → DeferSyncSequence
unfolding back
recv new_rev_id s =
    if refuses (back s.rev_ids) new_rev_id
    then s
    else record s { rev_ids = s.rev_ids ++ new_rev_id ∷ [] }

-- The index set where there is none and the list is not empty.
abbrev pub index_after : Option ℕ → List ℕ → Option ℕ
index_after (some i) rev_ids = some i
index_after none [] = none
index_after none (x ∷ xs) = some (length (x ∷ xs) - 1)

unfoldable pub merge_recv : ℕ → DeferSyncSequence → DeferSyncSequence
unfolding recv
merge_recv new_rev_id s =
    let s' = recv new_rev_id s in
    record s' {
      compact_length = s'.compact_length + 1;
      compact_index = index_after s'.compact_index s'.rev_ids;
    }

-- The id at the index where the mergeable ones start.
unfoldable pub compact_rev_id : DeferSyncSequence → Option ℕ
compact_rev_id s = elim s.compact_index [ none ↦ none | some i ↦ get_elem? s.rev_ids i ]

abbrev pub length_after : Option ℕ → ℕ → ℕ → ℕ
length_after none pop_rev_id n = n
length_after (some c) pop_rev_id n = if leb c pop_rev_id && ltb 0 n then n - 1 else n

-- On an error the sequence stays as it was.
unfoldable pub ack : ℕ → DeferSyncSequence → FlowyResult DeferSyncSequence
unfolding compact_rev_id
ack rev_id s = elim s.rev_ids [
  | [] ↦ done s
  | pop_rev_id ∷ rest ↦
      if pop_rev_id == rev_id
      then done (record s {
        rev_ids = rest;
        compact_length = length_after (compact_rev_id s) pop_rev_id s.compact_length;
      })
      else failed internal_error
]

unfoldable pub next_rev_id : DeferSyncSequence → Option ℕ
next_rev_id s = elim s.rev_ids [ [] ↦ none | x ∷ xs ↦ some x ]

unfoldable pub clear : DeferSyncSequence → DeferSyncSequence
clear s = record { rev_ids = []; compact_index = none; compact_length = 0 }

-- How many ids stay when the sequence is split at its index.
abbrev pub kept : Option ℕ → List ℕ → ℕ
kept none rev_ids = length rev_ids
kept (some start) rev_ids = if ltb start (length rev_ids) then start else length rev_ids

unfoldable pub compact : DeferSyncSequence → List ℕ × DeferSyncSequence
compact s =
    let n = kept s.compact_index s.rev_ids in
    (
      drop n s.rev_ids,
      record { rev_ids = take n s.rev_ids; compact_index = none; compact_length = 0 },
    )
