-- ===== src/Attributes.antt =====
-- The traits `OperationAttributes` and `OperationTransform` of
-- shared-lib/lib-ot/src/core/delta/operation/operation.rs, as an interface that the deltas take, and
-- `EmptyAttributes`, its trivial implementation.
pub mod HashMap
use app_flowy.Prelude.{Bool, true}
use app_flowy.Errors.{Result, ok}

-- `beq` is `PartialEq`, `empty` is `Default`.
pub record OperationAttributes (T : Type 0) : Type 0 where
  pub beq : T → T → Bool
  pub empty : T
  pub is_empty : T → Bool
  pub remove : T → T
  pub extend : T → T → T
  pub compose : T → T → Result T
  pub transform : T → T → Result (T × T)
  pub invert : T → T → T

pub data EmptyAttributes : Type 0 where
  empty_attributes : EmptyAttributes

-- `is_empty`, `remove` and `extend` are the trait's own bodies.
instance abbrev pub empty_operation_attributes : OperationAttributes EmptyAttributes
empty_operation_attributes = record {
  beq = λ a b. true;
  empty = empty_attributes;
  is_empty = λ a. true;
  remove = λ a. a;
  extend = λ a b. a;
  compose = λ a b. ok a;
  transform = λ a b. ok (a, b);
  invert = λ a b. a;
}
