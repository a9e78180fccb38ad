-- ===== src/NodeTree/Transaction.antt =====
-- shared-lib/lib-ot/src/core/node_tree/transaction.rs: operations with the selection they leave. The
-- bytes and the builder over a tree are left out.
use app_flowy.Prelude.{ℕ, ◌≡◌, refl, ap, Option, none, some, List, [], ◌∷◌, ◌++◌}
use app_flowy.Attributes.{OperationAttributes}
use app_flowy.NodeTree.Path.{NodePath}
use app_flowy.NodeTree.Operation
use app_flowy.NodeTree.Operation.{NodeOperation, push_op, compose_all, from_operations}

pub record Position : Type 0 where
  pub path : NodePath
  pub offset : ℕ

pub record Selection : Type 0 where
  pub start : Position
  pub end : Position

pub data Extension : Type 0 where
  empty_extension : Extension
  text_selection : Selection → Selection → Extension

pub record Transaction (T : Type 0) : Type 0 where
  pub operations : List (NodeOperation T)
  pub extension : Extension

module _ {T : Type 0} where
  -- The inner loop: one operation past all of the others in turn.
  unfoldable pub transform_past : List (NodeOperation T) → NodeOperation T → NodeOperation T
  transform_past [] other = other
  transform_past (operation ∷ operations) other =
      transform_past operations (Operation.transform operation other)

  unfoldable pub transform_each :
      List (NodeOperation T) → List (NodeOperation T) → List (NodeOperation T)
  unfolding transform_past
  transform_each operations [] = []
  transform_each operations (other ∷ others) =
      transform_past operations other ∷ transform_each operations others

  unfoldable pub transform : Transaction T → Transaction T → Transaction T
  unfolding transform_each
  transform self other = record {
    operations = transform_each self.operations other.operations;
    extension = self.extension;
  }

module _ {T : Type 0} ⦃attrs : OperationAttributes T⦄ where
  unfoldable pub transaction_of : List (NodeOperation T) → Option (Transaction T)
  transaction_of operations = elim (from_operations operations) [
    | none ↦ none
    | some ops ↦ some (record { operations = ops; extension = empty_extension })
  ]

  unfoldable pub push_operation : NodeOperation T → Transaction T → Option (Transaction T)
  push_operation operation t = elim (push_op operation t.operations) [
    | none ↦ none
    | some ops ↦ some (record t { operations = ops })
  ]

  unfoldable pub compose : Transaction T → Transaction T → Option (Transaction T)
  compose self other = elim (compose_all self.operations other.operations) [
    | none ↦ none
    | some ops ↦ some (record { operations = ops; extension = other.extension })
  ]

module _ {T : Type 0} where
  transform_past-append :
      (xs ys : List (NodeOperation T)) (op : NodeOperation T)
      → transform_past (xs ++ ys) op ≡ transform_past ys (transform_past xs op)
  unfolding transform_past
  transform_past-append [] ys op = refl
  transform_past-append (x ∷ xs) ys op = transform_past-append xs ys (Operation.transform x op)

  transform_each-append :
      (xs ys ops : List (NodeOperation T))
      → transform_each (xs ++ ys) ops ≡ transform_each ys (transform_each xs ops)
  unfolding transform_each
  transform_each-append xs ys [] = refl
  transform_each-append xs ys (op ∷ ops) =
      rw (transform_past-append xs ys op, transform_each-append xs ys ops) refl

  -- For any operations `xs` and `ys`: moving a transaction past one with `xs` and then past one
  -- with `ys` moves it past one with both, and the selection is that of the one moved past last.
  transform-append :
      (xs ys : List (NodeOperation T)) (first second : Extension) (t : Transaction T)
      → transform (record { operations = xs ++ ys; extension = second }) t
        ≡ transform
            (record { operations = ys; extension = second })
            (transform (record { operations = xs; extension = first }) t)
  unfolding transform
  transform-append xs ys first second t =
      ap (λ ops. record { operations = ops; extension = second })
        (transform_each-append xs ys t.operations)
