-- ===== src/NodeTree/Node.antt =====
-- shared-lib/lib-ot/src/core/node_tree/node.rs: the data of a node and its changes. The attributes
-- and the text of a node are any that the deltas take; `none` is what `compose` of deltas returns
-- when it does not.
use app_flowy.Prelude.{Bool, true, false, Option, none, some}
use app_flowy.Errors.{Result, ok, err, internal, compose_operation_fail}
use app_flowy.OtStr.{Text}
use app_flowy.Attributes.{OperationAttributes}
use app_flowy.Delta.Ops.{DeltaOperations}
use app_flowy.Delta.Transform
use app_flowy.Delta.Compose
use app_flowy.Delta.InvertDelta

-- `Option` around `Result`, for a result of a delta that is put to use.
abbrev pub and_then {ℓ κ} :
    {A : Type ℓ} {B : Type κ} → Option (Result A) → (A → Option (Result B)) → Option (Result B)
and_then none f = none
and_then (some (err e)) f = some (err e)
and_then (some (ok a)) f = f a

pub data Body (T : Type 0) : Type 0 where
  empty : Body T
  delta : DeltaOperations T → Body T

mutual
  pub data NodeData (T : Type 0) : Type 0 where
    node_data : Text → T → Body T → NodeList T → NodeData T

  pub data NodeList (T : Type 0) : Type 0 where
    no_nodes : NodeList T
    next_node : NodeData T → NodeList T → NodeList T

pub record Node (T : Type 0) : Type 0 where
  pub node_type : Text
  pub body : Body T
  pub attributes : T

pub data Changeset (T : Type 0) : Type 0 where
  delta_changeset : DeltaOperations T → DeltaOperations T → Changeset T
  attributes_changeset : T → T → Changeset T

module _ {T : Type 0} where
  unfoldable pub node_of : NodeData T → Node T
  node_of (node_data node_type attributes body children) = record {
    node_type = node_type;
    body = body;
    attributes = attributes;
  }

  unfoldable pub split : NodeData T → Node T × NodeList T
  unfolding node_of
  split (node_data node_type attributes body children) =
      (node_of (node_data node_type attributes body children), children)

  unfoldable pub is_delta : Changeset T → Bool
  is_delta (delta_changeset d d') = true
  is_delta (attributes_changeset new old) = false

  unfoldable pub is_attribute : Changeset T → Bool
  is_attribute (delta_changeset d d') = false
  is_attribute (attributes_changeset new old) = true

  unfoldable pub inverted : Changeset T → Changeset T
  inverted (delta_changeset d d') = delta_changeset d' d
  inverted (attributes_changeset new old) = attributes_changeset old new

module _ {T : Type 0} ⦃attrs : OperationAttributes T⦄ where
  -- `OperationTransform` of `Body`.
  unfoldable pub compose_body : Body T → Body T → Option (Result (Body T))
  compose_body (delta a) (delta b) = and_then (Compose.compose a b) (λ c. some (ok (delta c)))
  compose_body empty (delta b) = some (ok (delta b))
  compose_body empty empty = some (ok empty)
  compose_body (delta a) empty = some (err internal)

  unfoldable pub transform_body : Body T → Body T → Option (Result (Body T × Body T))
  transform_body (delta l) (delta r) =
      and_then (Transform.transform l r) (λ t. some (ok (delta t.0, delta t.1)))
  transform_body empty empty = some (ok (empty, empty))
  transform_body empty (delta r) = some (err internal)
  transform_body (delta l) empty = some (err internal)

  unfoldable pub compose_changeset : Changeset T → Changeset T → Option (Result (Changeset T))
  compose_changeset (delta_changeset d d') (delta_changeset other_d other_d') =
      and_then (Compose.compose d d') λ original. and_then (Compose.compose d other_d) λ new_delta.
        elim (InvertDelta.invert new_delta original) [
          | none ↦ none
          | some new_inverted ↦ some (ok (delta_changeset new_delta new_inverted))
        ]
  compose_changeset (attributes_changeset new old) (attributes_changeset other_new other_old) =
      some (ok (attributes_changeset other_new other_old))
  compose_changeset (delta_changeset d d') (attributes_changeset new old) =
      some (err compose_operation_fail)
  compose_changeset (attributes_changeset new old) (delta_changeset d d') =
      some (err compose_operation_fail)

  unfoldable pub apply_changeset : Changeset T → Node T → Option (Result (Node T))
  unfolding compose_body
  apply_changeset (delta_changeset d d') node =
      and_then (compose_body node.body (delta d))
        (λ new_body. some (ok (record node { body = new_body })))
  apply_changeset (attributes_changeset new old) node =
      and_then (some (attrs.compose node.attributes new))
        (λ new_attributes. some (ok (record node { attributes = new_attributes })))
