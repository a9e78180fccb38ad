-- ===== src/NodeTree/Operation.antt =====
-- shared-lib/lib-ot/src/core/node_tree/operation.rs: operations on nodes, and lists of them. `none` is
-- a composition of deltas that does not return, or the `unwrap` of the last of no nodes.
pub mod Laws
use app_flowy.Prelude.{
  ℕ, suc, ◌+◌, Bool, true, false, not, ◌&&◌, ◌||◌, Option, none, some, List, [], ◌∷◌, ◌++◌,
  if◌then◌else◌,
}
use app_flowy.Errors.{Result, ok, err, compose_operation_fail}
use app_flowy.Attributes.{OperationAttributes}
use app_flowy.Delta.Ops.{DeltaOperations}
use app_flowy.Delta.Compose
use app_flowy.NodeTree.Path
use app_flowy.NodeTree.Path.{NodePath, path_eq}
use app_flowy.NodeTree.Node
use app_flowy.NodeTree.Node.{
  empty, delta, NodeData, node_data, NodeList, no_nodes, next_node, Changeset, delta_changeset,
  attributes_changeset, is_delta, is_attribute, compose_changeset, and_then,
}

pub data NodeOperation (T : Type 0) : Type 0 where
  insert : NodePath → NodeList T → NodeOperation T
  update : NodePath → Changeset T → NodeOperation T
  delete : NodePath → NodeList T → NodeOperation T

module _ {T : Type 0} where
  -- The length of the vector of nodes.
  unfoldable pub count : NodeList T → ℕ
  count no_nodes = 0
  count (next_node node nodes) = suc (count nodes)

  abbrev pub get_path : NodeOperation T → NodePath
  get_path (insert path nodes) = path
  get_path (update path changeset) = path
  get_path (delete path nodes) = path

  -- An assignment through `get_mut_path`.
  abbrev pub set_path : NodePath → NodeOperation T → NodeOperation T
  set_path new_path (insert path nodes) = insert new_path nodes
  set_path new_path (update path changeset) = update new_path changeset
  set_path new_path (delete path nodes) = delete new_path nodes

  unfoldable pub is_update_delta : NodeOperation T → Bool
  unfolding is_delta
  is_update_delta (insert path nodes) = false
  is_update_delta (update path changeset) = is_delta changeset
  is_update_delta (delete path nodes) = false

  unfoldable pub is_update_attribute : NodeOperation T → Bool
  unfolding is_attribute
  is_update_attribute (insert path nodes) = false
  is_update_attribute (update path changeset) = is_attribute changeset
  is_update_attribute (delete path nodes) = false

  unfoldable pub is_insert : NodeOperation T → Bool
  is_insert (insert path nodes) = true
  is_insert (update path changeset) = false
  is_insert (delete path nodes) = false

  unfoldable pub can_compose : NodeOperation T → NodeOperation T → Bool
  unfolding is_update_delta is_update_attribute is_insert path_eq
  can_compose self other =
      if not (path_eq (get_path self) (get_path other))
      then false
      else is_update_delta self && is_update_delta other
        || is_update_attribute self && is_update_attribute other
        || is_insert self && is_update_delta other

  unfoldable pub inverted : NodeOperation T → NodeOperation T
  unfolding Node.inverted
  inverted (insert path nodes) = delete path nodes
  inverted (delete path nodes) = insert path nodes
  inverted (update path changeset) = update path (Node.inverted changeset)

  unfoldable pub transform : NodeOperation T → NodeOperation T → NodeOperation T
  transform (insert path nodes) other =
      set_path (Path.transform path (get_path other) (count nodes)) other
  transform (delete path nodes) other =
      set_path (Path.transform path (get_path other) (count nodes)) other
  transform (update path changeset) other = other

module _ {T : Type 0} ⦃attrs : OperationAttributes T⦄ where
  -- The body of a node, composed with a delta if it is one.
  unfoldable pub compose_node : NodeData T → DeltaOperations T → Option (Result (NodeData T))
  compose_node (node_data node_type attributes empty children) d =
      some (ok (node_data node_type attributes empty children))
  compose_node (node_data node_type attributes (delta old_delta) children) d =
      and_then (Compose.compose old_delta d)
        (λ new_delta. some (ok (node_data node_type attributes (delta new_delta) children)))

  -- `nodes.last_mut().unwrap()`, composed with a delta.
  unfoldable pub compose_last : NodeList T → DeltaOperations T → Option (Result (NodeList T))
  unfolding compose_node
  compose_last no_nodes d = none
  compose_last (next_node node no_nodes) d =
      and_then (compose_node node d) (λ composed. some (ok (next_node composed no_nodes)))
  compose_last (next_node node (next_node after nodes)) d =
      and_then (compose_last (next_node after nodes) d)
        (λ composed. some (ok (next_node node composed)))

  unfoldable pub compose : NodeOperation T → NodeOperation T → Option (Result (NodeOperation T))
  unfolding compose_last compose_changeset
  compose (insert path nodes) (update other_path (delta_changeset d d')) =
      and_then (compose_last nodes d) (λ composed. some (ok (insert path composed)))
  compose (insert path nodes) (update other_path (attributes_changeset new old)) =
      some (err compose_operation_fail)
  compose (update path changeset) (update other_path other_changeset) =
      and_then (compose_changeset changeset other_changeset)
        (λ composed. some (ok (update path composed)))
  compose (insert path nodes) (insert other_path others) = some (err compose_operation_fail)
  compose (insert path nodes) (delete other_path others) = some (err compose_operation_fail)
  compose (update path changeset) (insert other_path others) = some (err compose_operation_fail)
  compose (update path changeset) (delete other_path others) = some (err compose_operation_fail)
  compose (delete path nodes) other = some (err compose_operation_fail)

  -- What `push_op` leaves in the place of the last operation.
  unfoldable pub composed_last : NodeOperation T → NodeOperation T → Option (List (NodeOperation T))
  unfolding can_compose compose
  composed_last last_operation other =
      if can_compose last_operation other
      then elim (compose last_operation other) [
        | none ↦ none
        | some (ok composed) ↦ some (composed ∷ [])
        | some (err e) ↦ some (last_operation ∷ other ∷ [])
      ]
      else some (last_operation ∷ other ∷ [])

  unfoldable pub push_op :
      NodeOperation T → List (NodeOperation T) → Option (List (NodeOperation T))
  unfolding composed_last
  push_op other [] = some (other ∷ [])
  push_op other (last_operation ∷ []) = composed_last last_operation other
  push_op other (op ∷ next ∷ ops) = elim (push_op other (next ∷ ops)) [
    | none ↦ none
    | some pushed ↦ some (op ∷ pushed)
  ]

  -- `NodeOperations::compose`, and `from_operations` on no operations.
  unfoldable pub compose_all :
      List (NodeOperation T) → List (NodeOperation T) → Option (List (NodeOperation T))
  unfolding push_op
  compose_all ops [] = some ops
  compose_all ops (operation ∷ other) = elim (push_op operation ops) [
    | none ↦ none
    | some pushed ↦ compose_all pushed other
  ]

  unfoldable pub from_operations : List (NodeOperation T) → Option (List (NodeOperation T))
  unfolding compose_all
  from_operations operations = compose_all [] operations

  -- The loop of `NodeOperations::inverted` behind the operations pushed.
  unfoldable pub inverted_loop :
      List (NodeOperation T) → List (NodeOperation T) → Option (List (NodeOperation T))
  unfolding push_op inverted
  inverted_loop pushed [] = some pushed
  inverted_loop pushed (operation ∷ operations) = elim (push_op (inverted operation) pushed) [
    | none ↦ none
    | some pushed' ↦ inverted_loop pushed' operations
  ]

  unfoldable pub inverted_all : List (NodeOperation T) → Option (List (NodeOperation T))
  unfolding inverted_loop
  inverted_all operations = inverted_loop [] operations
