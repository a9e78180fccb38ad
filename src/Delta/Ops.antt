-- ===== src/Delta/Ops.antt =====
-- `DeltaOperations` of shared-lib/lib-ot/src/core/delta/ops.rs: building, applying and inverting.
-- `apply` and `invert_str` take characters from the text, where the lengths count UTF-16 code units.
use app_flowy.Prelude.{
  ℕ, ◌+◌, Bool, true, false, Option, none, some, List, [], ◌∷◌, ◌++◌, take, drop, is_nil, on_last,
  on_last_two, ◌==◌, if◌then◌else◌,
}
use app_flowy.Errors.{Result, ok, err, incompatible_length}
use app_flowy.OtStr.{Text, utf16_len}
use app_flowy.Attributes.{OperationAttributes}
use app_flowy.Delta.Operation.{DeltaOperation, delete, retain, insert, get_attributes}

pub record DeltaOperations (T : Type 0) : Type 0 where
  pub ops : List (DeltaOperation T)
  pub utf16_base_len : ℕ
  pub utf16_target_len : ℕ

module _ {T : Type 0} where
  -- `Default`, `new`, `with_capacity`
  abbrev pub new : DeltaOperations T
  new = record { ops = []; utf16_base_len = 0; utf16_target_len = 0 }

  unfoldable pub last_delete : ℕ → Option (DeltaOperation T) → List (DeltaOperation T)
  last_delete n none = delete n ∷ []
  last_delete n (some (delete m)) = delete (m + n) ∷ []
  last_delete n (some (retain m a)) = retain m a ∷ delete n ∷ []
  last_delete n (some (insert s a)) = insert s a ∷ delete n ∷ []

  -- The method `delete`.
  unfoldable pub add_delete : ℕ → DeltaOperations T → DeltaOperations T
  unfolding last_delete
  add_delete n d =
      if n == 0
      then d
      else record d { ops = on_last (last_delete n) d.ops; utf16_base_len = d.utf16_base_len + n }

module _ {T : Type 0} ⦃attrs : OperationAttributes T⦄ where
  -- `Insert::merge_or_new_op` on the insert before `rest`; a new operation goes behind `rest`.
  unfoldable pub merge_or_new_op :
      Text → T → Text → T → List (DeltaOperation T) → List (DeltaOperation T)
  merge_or_new_op s a t b rest =
      if attrs.beq a b then insert (s ++ t) a ∷ rest else insert s a ∷ rest ++ insert t b ∷ []

  -- The operation before the last, and the last. There is no last one behind none.
  unfoldable pub last_insert :
      Text → T → Option (DeltaOperation T) → Option (DeltaOperation T) → List (DeltaOperation T)
  unfolding merge_or_new_op
  last_insert t b none none = insert t b ∷ []
  last_insert t b (some p) none = p ∷ insert t b ∷ []
  last_insert t b none (some (insert s a)) = merge_or_new_op s a t b []
  last_insert t b (some p) (some (insert s a)) = p ∷ merge_or_new_op s a t b []
  last_insert t b none (some (delete n)) = insert t b ∷ delete n ∷ []
  last_insert t b (some (insert s a)) (some (delete n)) = merge_or_new_op s a t b (delete n ∷ [])
  last_insert t b (some (delete m)) (some (delete n)) = delete m ∷ insert t b ∷ delete n ∷ []
  last_insert t b (some (retain m a)) (some (delete n)) = retain m a ∷ insert t b ∷ delete n ∷ []
  last_insert t b none (some (retain n a)) = retain n a ∷ insert t b ∷ []
  last_insert t b (some p) (some (retain n a)) = p ∷ retain n a ∷ insert t b ∷ []

  -- The method `insert`.
  unfoldable pub add_insert : Text → T → DeltaOperations T → DeltaOperations T
  unfolding last_insert
  add_insert s a d = if is_nil s then d else record d {
    ops = on_last_two (last_insert s a) d.ops;
    utf16_target_len = d.utf16_target_len + utf16_len s;
  }

  -- `Retain::merge_or_new` on the last operation.
  unfoldable pub last_retain : ℕ → T → Option (DeltaOperation T) → List (DeltaOperation T)
  last_retain n b none = retain n b ∷ []
  last_retain n b (some (delete m)) = delete m ∷ retain n b ∷ []
  last_retain n b (some (retain m a)) =
      if attrs.beq a b then retain (m + n) a ∷ [] else retain m a ∷ retain n b ∷ []
  last_retain n b (some (insert s a)) = insert s a ∷ retain n b ∷ []

  -- The method `retain`.
  unfoldable pub add_retain : ℕ → T → DeltaOperations T → DeltaOperations T
  unfolding last_retain
  add_retain n a d = if n == 0 then d else record {
    ops = on_last (last_retain n a) d.ops;
    utf16_base_len = d.utf16_base_len + n;
    utf16_target_len = d.utf16_target_len + n;
  }

  unfoldable pub add : DeltaOperation T → DeltaOperations T → DeltaOperations T
  unfolding add_delete add_insert add_retain
  add (delete n) d = add_delete n d
  add (insert s a) d = add_insert s a d
  add (retain n a) d = add_retain n a d

  -- `for_each(|op| self.add(op))`
  unfoldable pub add_all : List (DeltaOperation T) → DeltaOperations T → DeltaOperations T
  unfolding add
  add_all [] d = d
  add_all (op ∷ ops) d = add_all ops (add op d)

  unfoldable pub from_iter : List (DeltaOperation T) → DeltaOperations T
  unfolding add_all
  from_iter ops = add_all ops new

  unfoldable pub extend : DeltaOperations T → DeltaOperations T → DeltaOperations T
  unfolding add_all
  extend d other = add_all other.ops d

module _ {T : Type 0} where
  -- The loop of `apply`: `rest` is what `code_point_iter` still yields.
  unfoldable pub apply_loop : List (DeltaOperation T) → Text → Text → Text
  apply_loop [] rest new_s = new_s
  apply_loop (retain n a ∷ ops) rest new_s = apply_loop ops (drop n rest) (new_s ++ take n rest)
  apply_loop (delete n ∷ ops) rest new_s = apply_loop ops (drop n rest) new_s
  apply_loop (insert s a ∷ ops) rest new_s = apply_loop ops rest (new_s ++ s)

  unfoldable pub apply : DeltaOperations T → Text → Result Text
  unfolding apply_loop
  apply d s =
      if utf16_len s == d.utf16_base_len
      then ok (apply_loop d.ops s [])
      else err incompatible_length

  unfoldable pub content : DeltaOperations T → Result Text
  unfolding apply
  content d = apply d []

  unfoldable pub is_noop : DeltaOperations T → Bool
  is_noop d = elim d.ops [
    | [] ↦ true
    | op ∷ rest ↦ elim op [ delete n ↦ false | retain n a ↦ is_nil rest | insert s a ↦ false ]
  ]

module _ {T : Type 0} ⦃attrs : OperationAttributes T⦄ where
  -- The loop of `invert_str`.
  unfoldable pub invert_str_loop :
      List (DeltaOperation T) → Text → DeltaOperations T → DeltaOperations T
  unfolding add_delete add_insert add_retain
  invert_str_loop [] rest inverted = inverted
  invert_str_loop (retain n a ∷ ops) rest inverted =
      invert_str_loop ops (drop n rest) (add_retain n attrs.empty inverted)
  invert_str_loop (insert s a ∷ ops) rest inverted =
      invert_str_loop ops rest (add_delete (utf16_len s) inverted)
  invert_str_loop (delete n ∷ ops) rest inverted =
      invert_str_loop ops (drop n rest)
        (add_insert (take n rest) (get_attributes {T = T} (delete n)) inverted)

  unfoldable pub invert_str : DeltaOperations T → Text → DeltaOperations T
  unfolding invert_str_loop
  invert_str d s = invert_str_loop d.ops s new

  unfoldable pub inverted : DeltaOperations T → DeltaOperations T
  unfolding invert_str
  inverted d = invert_str d []
