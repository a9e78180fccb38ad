-- ===== src/Delta/Operation.antt =====
-- `DeltaOperation` of shared-lib/lib-ot/src/core/delta/operation/operation.rs. The fields of the
-- structs `Retain` and `Insert` are the arguments of their constructors.
use app_flowy.Prelude.{
  ℕ, min, Bool, true, false, not, Option, none, some, [], ltb, ◌==◌, if◌then◌else◌,
}
use app_flowy.Interval
use app_flowy.Interval.{Interval}
use app_flowy.OtStr.{Text, utf16_len, sub_str, or_empty}
use app_flowy.Attributes.{OperationAttributes}

pub data DeltaOperation (T : Type 0) : Type 0 where
  delete : ℕ → DeltaOperation T
  retain : ℕ → T → DeltaOperation T
  insert : Text → T → DeltaOperation T

module _ {T : Type 0} where
  abbrev pub get_data : DeltaOperation T → Text
  get_data (delete n) = []
  get_data (retain n a) = []
  get_data (insert s a) = s

  -- The length in UTF-16 code units.
  unfoldable pub len : DeltaOperation T → ℕ
  len (delete n) = n
  len (retain n a) = n
  len (insert s a) = utf16_len s

  unfoldable pub is_empty : DeltaOperation T → Bool
  unfolding len
  is_empty op = len op == 0

  abbrev pub is_delete : DeltaOperation T → Bool
  is_delete (delete n) = true
  is_delete (retain n a) = false
  is_delete (insert s a) = false

  abbrev pub is_retain : DeltaOperation T → Bool
  is_retain (delete n) = false
  is_retain (retain n a) = true
  is_retain (insert s a) = false

  abbrev pub is_insert : DeltaOperation T → Bool
  is_insert (delete n) = false
  is_insert (retain n a) = false
  is_insert (insert s a) = true

module _ {T : Type 0} ⦃attrs : OperationAttributes T⦄ where
  abbrev pub get_attributes : DeltaOperation T → T
  get_attributes (delete n) = attrs.empty
  get_attributes (retain n a) = a
  get_attributes (insert s a) = a

  abbrev pub has_attribute : DeltaOperation T → Bool
  has_attribute op = not (attrs.is_empty (get_attributes op))

  abbrev pub is_plain : DeltaOperation T → Bool
  is_plain (delete n) = true
  is_plain (retain n a) = attrs.is_empty a
  is_plain (insert s a) = attrs.is_empty a

  -- The operation with the width of the interval, before the test for emptiness.
  unfoldable pub narrow : DeltaOperation T → Interval → DeltaOperation T
  narrow (delete n) iv = delete (min n (Interval.size iv))
  narrow (retain n a) iv = retain (min n (Interval.size iv)) a
  narrow (insert s a) iv =
      if ltb (utf16_len s) iv.start
      then insert [] attrs.empty
      else insert (or_empty (sub_str s iv)) a

  unfoldable pub shrink : DeltaOperation T → Interval → Option (DeltaOperation T)
  unfolding narrow is_empty
  shrink op iv = let op' = narrow op iv in if is_empty op' then none else some op'
