-- ===== src/Delta/Builder.antt =====
-- shared-lib/lib-ot/src/core/delta/builder.rs: a delta built step by step.
use app_flowy.Prelude.{ℕ}
use app_flowy.OtStr.{Text}
use app_flowy.Attributes.{OperationAttributes}
use app_flowy.Delta.Ops.{DeltaOperations, new, add_delete, add_insert, add_retain, add_all}
use app_flowy.Delta.Meaning.{SameEffect, IsWellFormed}
use app_flowy.Delta.Lengths.{add_all-IsWellFormed, add_all-SameEffect}
use app_flowy.Delta.Extends.{IsWellFormed-new}
use app_flowy.Delta.InvertDelta

pub record DeltaOperationBuilder (T : Type 0) : Type 0 where
  pub delta : DeltaOperations T

module _ {T : Type 0} ⦃attrs : OperationAttributes T⦄ where
  unfoldable pub new_builder : DeltaOperationBuilder T
  new_builder = record { delta = new }

  unfoldable pub from_delta_operation : DeltaOperations T → DeltaOperationBuilder T
  unfolding new_builder
  from_delta_operation d = record { delta = add_all d.ops new_builder.delta }

  unfoldable pub retain_with_attributes : ℕ → T → DeltaOperationBuilder T → DeltaOperationBuilder T
  retain_with_attributes n a b = record { delta = add_retain n a b.delta }

  unfoldable pub retain : ℕ → DeltaOperationBuilder T → DeltaOperationBuilder T
  retain n b = record { delta = add_retain n attrs.empty b.delta }

  unfoldable pub delete : ℕ → DeltaOperationBuilder T → DeltaOperationBuilder T
  delete n b = record { delta = add_delete n b.delta }

  unfoldable pub insert_with_attributes :
      Text → T → DeltaOperationBuilder T → DeltaOperationBuilder T
  insert_with_attributes s a b = record { delta = add_insert s a b.delta }

  unfoldable pub insert : Text → DeltaOperationBuilder T → DeltaOperationBuilder T
  insert s b = record { delta = add_insert s attrs.empty b.delta }

  unfoldable pub trim : DeltaOperationBuilder T → DeltaOperationBuilder T
  trim b = record { delta = InvertDelta.trim b.delta }

  unfoldable pub build : DeltaOperationBuilder T → DeltaOperations T
  build b = b.delta

  -- A builder that starts from any delta builds a well-formed delta with the effect of its operations,
  -- whatever lengths the delta recorded.
  build-from_delta_operation :
      (d : DeltaOperations T)
      → IsWellFormed (build (from_delta_operation d))
        × SameEffect (build (from_delta_operation d)).ops d.ops
  unfolding build from_delta_operation new_builder
  build-from_delta_operation d =
      (add_all-IsWellFormed d.ops new IsWellFormed-new, add_all-SameEffect d.ops new)
