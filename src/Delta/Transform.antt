-- ===== src/Delta/Transform.antt =====
-- `transform` of shared-lib/lib-ot/src/core/delta/ops.rs: two concurrent deltas on one text. A list
-- stands for `next_op` and what the iterator behind it still yields. A round takes an operation off
-- one of the lists at least, so `transform` grants one round for each operation and the last test.
pub mod Diamond
pub mod Outcome
pub mod Loop
pub mod Converge
use mathlib.Core.List.{head?}
use app_flowy.Prelude.{
  ℕ, zero, suc, ◌+◌, ◌-◌, Option, none, some, List, [], ◌∷◌, length, compare, Ordering, ◌==◌,
  if◌then◌else◌,
}
use app_flowy.Errors.{Result, ok, err, ◌>>=◌, incompatible_length, internal}
use app_flowy.OtStr.{utf16_len}
use app_flowy.Attributes.{OperationAttributes}
use app_flowy.Delta.Operation.{DeltaOperation, delete, retain, insert, get_attributes}
use app_flowy.Delta.Ops.{DeltaOperations, new, add_delete, add_insert, add_retain}

-- `none` when the rounds run out.
abbrev pub Transformed : Type 0 → Type 0
Transformed T = Option (Result (DeltaOperations T × DeltaOperations T))

module _ {T : Type 0} ⦃attrs : OperationAttributes T⦄ where
  -- `unwrap` of a missing right operation panics; no call passes one behind a left operation.
  unfoldable pub transform_op_attribute :
      Option (DeltaOperation T) → Option (DeltaOperation T) → Result T
  transform_op_attribute none none = ok attrs.empty
  transform_op_attribute none (some right) = ok (get_attributes right)
  transform_op_attribute (some left) none = err internal
  transform_op_attribute (some left) (some right) =
      attrs.transform (get_attributes left) (get_attributes right) >>= λ p. ok p.0

  -- `?` inside the loop.
  abbrev pub with_attributes : Result T → (T → Transformed T) → Transformed T
  with_attributes (ok composed_attrs) continue = continue composed_attrs
  with_attributes (err e) continue = some (err e)

  -- The loop, with the rounds left.
  unfoldable pub transform_loop :
      ℕ
      → List (DeltaOperation T)
      → List (DeltaOperation T)
      → DeltaOperations T
      → DeltaOperations T
      → Transformed T
  transform_loop zero ops1 ops2 a_prime b_prime = none
  transform_loop (suc rounds) [] [] a_prime b_prime = some (ok (a_prime, b_prime))
  transform_loop (suc rounds) (insert s x ∷ ops1) ops2 a_prime b_prime =
      transform_loop rounds ops1 ops2 (add_insert s x a_prime) (add_retain (utf16_len s) x b_prime)
  transform_loop (suc rounds) ops1 (insert t y ∷ ops2) a_prime b_prime =
      with_attributes (transform_op_attribute (head? ops1) (some (insert t y))) λ composed_attrs.
        transform_loop rounds ops1 ops2 (add_retain (utf16_len t) composed_attrs a_prime)
          (add_insert t composed_attrs b_prime)
  transform_loop (suc rounds) [] (op2 ∷ ops2) a_prime b_prime = some (err incompatible_length)
  transform_loop (suc rounds) (op1 ∷ ops1) [] a_prime b_prime = some (err incompatible_length)
  transform_loop (suc rounds) (retain n x ∷ ops1) (retain m y ∷ ops2) a_prime b_prime =
      with_attributes (transform_op_attribute (some (retain n x)) (some (retain m y))) λ c.
        elim (compare n m) [
          | Ordering.lt ↦
              transform_loop rounds ops1 (retain (m - n) attrs.empty ∷ ops2)
                (add_retain n c a_prime) (add_retain n c b_prime)
          | Ordering.eq ↦
              transform_loop rounds ops1 ops2 (add_retain n c a_prime) (add_retain n c b_prime)
          | Ordering.gt ↦
              transform_loop rounds (retain (n - m) attrs.empty ∷ ops1) ops2
                (add_retain m c a_prime) (add_retain m c b_prime)
        ]
  transform_loop (suc rounds) (delete i ∷ ops1) (delete j ∷ ops2) a_prime b_prime =
      elim (compare i j) [
        | Ordering.lt ↦ transform_loop rounds ops1 (delete (j - i) ∷ ops2) a_prime b_prime
        | Ordering.eq ↦ transform_loop rounds ops1 ops2 a_prime b_prime
        | Ordering.gt ↦ transform_loop rounds (delete (i - j) ∷ ops1) ops2 a_prime b_prime
      ]
  transform_loop (suc rounds) (delete i ∷ ops1) (retain m y ∷ ops2) a_prime b_prime =
      elim (compare i m) [
        | Ordering.lt ↦
            transform_loop rounds ops1 (retain (m - i) attrs.empty ∷ ops2) (add_delete i a_prime)
              b_prime
        | Ordering.eq ↦ transform_loop rounds ops1 ops2 (add_delete i a_prime) b_prime
        | Ordering.gt ↦
            transform_loop rounds (delete (i - m) ∷ ops1) ops2 (add_delete m a_prime) b_prime
      ]
  transform_loop (suc rounds) (retain n x ∷ ops1) (delete j ∷ ops2) a_prime b_prime =
      elim (compare n j) [
        | Ordering.lt ↦
            transform_loop rounds ops1 (delete (j - n) ∷ ops2) a_prime (add_delete n b_prime)
        | Ordering.eq ↦ transform_loop rounds ops1 ops2 a_prime (add_delete n b_prime)
        | Ordering.gt ↦
            transform_loop rounds (retain (n - j) attrs.empty ∷ ops1) ops2 a_prime
              (add_delete j b_prime)
      ]

  unfoldable pub transform : DeltaOperations T → DeltaOperations T → Transformed T
  unfolding transform_loop
  transform a b =
      if a.utf16_base_len == b.utf16_base_len
      then transform_loop (length a.ops + length b.ops + 1) a.ops b.ops new new
      else some (err incompatible_length)
