-- ===== src/Revision/Memory/Lookup.antt =====
-- Looking up a record in the cache behind its methods.
use app_flowy.Prelude.{
  ℕ, zero, suc, ◌+◌, ◌≡◌, ◌∙◌, ◌&&◌, none, some, ◌==◌, leb, if◌then◌else◌, arith,
}
use app_flowy.Revision.{RevisionRange, range_len, ids_from, to_rev_ids}
use app_flowy.Revision.Memory.{
  SyncRecord, RecordMap, RevisionMemoryCache, get, remove, remove_all, remove_with_range,
}

-- What the code relies on: a lookup finds the last value inserted and not removed.
pub record RecordMapLaws (M : Type 0) (map : RecordMap M) : Type 0 where
  pub get-insert :
      (id k : ℕ) (r : SyncRecord) (m : M)
      → map.get id (map.insert k r m) ≡ (if id == k then some r else map.get id m)
  pub get-remove :
      (id k : ℕ) (m : M) → map.get id (map.remove k m) ≡ (if id == k then none else map.get id m)

module _ {M : Type 0} (map : RecordMap M) (laws : RecordMapLaws M map) where
  get-remove_ids :
      (n start id : ℕ) (c : RevisionMemoryCache M)
      → map.get id (remove_all map (ids_from n start) c).revs_map
        ≡ (if leb start id && leb (suc id) (start + n) then none else map.get id c.revs_map)
  unfolding remove_all ids_from remove
  get-remove_ids zero start id c = ground arith
  get-remove_ids (suc n) start id c =
      get-remove_ids n (suc start) id (remove map start c)
      ∙ ground (arith, laws.get-remove id start c.revs_map)

  -- For a map with the laws: after `remove_with_range` the records of the ids in the range are gone, the
  -- end included, and every other record is as it was.
  pub get-remove_with_range :
      (range : RevisionRange) (id : ℕ) (c : RevisionMemoryCache M)
      → get map id (remove_with_range map range c)
        ≡ (if leb range.start id && leb id range.end then none else get map id c)
  unfolding get remove_with_range to_rev_ids range_len
  get-remove_with_range range id c =
      get-remove_ids (range_len range) range.start id c ∙ ground arith
