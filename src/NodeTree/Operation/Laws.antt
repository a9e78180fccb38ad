-- ===== src/NodeTree/Operation/Laws.antt =====
-- Inverting and pushing node operations.
use app_flowy.Prelude.{◌≡◌, refl, true, false, some, List, [], ◌∷◌, ◌++◌, arith}
use app_flowy.Attributes.{OperationAttributes}
use app_flowy.NodeTree.Path.{NodePath, path_eq}
use app_flowy.NodeTree.Node
use app_flowy.NodeTree.Node.{
  delta_changeset, attributes_changeset, is_delta, is_attribute, compose_changeset,
}
use app_flowy.NodeTree.Operation.{
  NodeOperation, insert, update, delete, can_compose, is_update_delta, is_update_attribute,
  is_insert, inverted, compose, composed_last, push_op,
}

module _ {T : Type 0} where
  -- For every node operation, the inverse of its inverse is the operation.
  inverted-inverted : (op : NodeOperation T) → inverted (inverted op) ≡ op
  unfolding inverted Node.inverted
  inverted-inverted (insert path nodes) = refl
  inverted-inverted (delete path nodes) = refl
  inverted-inverted (update path (delta_changeset d d')) = refl
  inverted-inverted (update path (attributes_changeset new old)) = refl

path_eq_refl : (p : NodePath) → path_eq p p ≡ true
unfolding path_eq
path_eq_refl [] = refl
path_eq_refl (x ∷ p) = ground (arith, path_eq_refl p)

module _ {T : Type 0} ⦃attrs : OperationAttributes T⦄ where
  composed_last-attributes :
      (path : NodePath) (new old other_new other_old : T)
      → composed_last
          (update path (attributes_changeset new old))
          (update path (attributes_changeset other_new other_old))
        ≡ some (update path (attributes_changeset other_new other_old) ∷ [])
  unfolding composed_last can_compose compose compose_changeset is_update_delta is_update_attribute
      is_delta is_attribute is_insert
  composed_last-attributes path new old other_new other_old = rw (path_eq_refl path) refl

  -- For any operations and any path: a change of attributes that is pushed behind one at the same
  -- path takes its place, so that both the new attributes and those for undoing it are the later
  -- ones.
  push_op-attributes :
      (ops : List (NodeOperation T)) (path : NodePath) (new old other_new other_old : T)
      → push_op
          (update path (attributes_changeset other_new other_old))
          (ops ++ update path (attributes_changeset new old) ∷ [])
        ≡ some (ops ++ update path (attributes_changeset other_new other_old) ∷ [])
  unfolding push_op
  push_op-attributes [] path new old other_new other_old =
      composed_last-attributes path new old other_new other_old
  push_op-attributes (op ∷ []) path new old other_new other_old =
      rw (push_op, composed_last-attributes path new old other_new other_old) refl
  push_op-attributes (op ∷ next ∷ ops) path new old other_new other_old =
      rw (push_op, push_op-attributes (next ∷ ops) path new old other_new other_old) refl

  -- Operations that cannot be composed are appended.
  push_op-append :
      (ops : List (NodeOperation T)) (last_operation op : NodeOperation T)
      → can_compose last_operation op ≡ false
      → push_op op (ops ++ last_operation ∷ []) ≡ some (ops ++ last_operation ∷ op ∷ [])
  unfolding push_op composed_last
  push_op-append [] last_operation op h = rw (composed_last, h) refl
  push_op-append (x ∷ []) last_operation op h = rw (push_op, composed_last, h) refl
  push_op-append (x ∷ y ∷ ops) last_operation op h =
      rw (push_op, push_op-append (y ∷ ops) last_operation op h) refl
