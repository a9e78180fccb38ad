-- ===== src/Revision.antt =====
-- shared-lib/revision-model/src/revision.rs: a change of an object with the ids before and behind it. The
-- ids count from 0, and are natural numbers here.
pub mod Sequence
pub mod Merge
pub mod Memory
pub mod Persistence
pub mod Snapshot
pub mod Manager
pub mod Provider
pub mod Conflict
use app_flowy.Prelude.{ℕ, zero, suc, ◌+◌, ◌-◌, Bool, List, [], ◌∷◌, ◌==◌, leb, if◌then◌else◌}
use app_flowy.OtStr.{Text}

pub record Revision : Type 0 where
  pub base_rev_id : ℕ
  pub rev_id : ℕ
  pub bytes : List ℕ
  pub md5 : Text
  pub object_id : Text

unfoldable pub is_empty : Revision → Bool
is_empty r = r.base_rev_id == r.rev_id

abbrev pub pair_rev_id : Revision → ℕ × ℕ
pair_rev_id r = (r.base_rev_id, r.rev_id)

unfoldable pub is_initial : Revision → Bool
is_initial r = r.rev_id == 0

pub record RevisionRange : Type 0 where
  pub start : ℕ
  pub end : ℕ

unfoldable pub range_len : RevisionRange → ℕ
range_len range = if leb range.start range.end then range.end - range.start + 1 else 0

-- `n` ids from `start` on.
unfoldable pub ids_from : ℕ → ℕ → List ℕ
ids_from zero start = []
ids_from (suc n) start = start ∷ ids_from n (suc start)

-- `RangeInclusive`, which is empty where the end lies before the start.
unfoldable pub to_rev_ids : RevisionRange → List ℕ
unfolding ids_from range_len
to_rev_ids range = ids_from (range_len range) range.start
