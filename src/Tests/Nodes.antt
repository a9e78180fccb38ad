-- ===== src/Tests/Nodes.antt =====
-- Node operations on a small document, at which the theorems are applied.
use app_flowy.Prelude.{◌≡◌, refl, [], ◌∷◌}
use app_flowy.Attributes.{EmptyAttributes, empty_attributes, empty_operation_attributes}
use app_flowy.NodeTree.Path
use app_flowy.NodeTree.Path.{NodePath}
use app_flowy.NodeTree.Path.Shift.{transform-transform, transform-injective}
use app_flowy.NodeTree.Node.{empty, node_data, NodeList, no_nodes, next_node, attributes_changeset}
use app_flowy.NodeTree.Operation.{NodeOperation, insert, update, delete}
use app_flowy.NodeTree.Transaction.{empty_extension, Transaction}

abbrev one_node : NodeList EmptyAttributes
one_node = next_node (node_data (116 ∷ []) empty_attributes empty no_nodes) no_nodes

abbrev second_child : NodePath
second_child = 0 ∷ 2 ∷ []

abbrev insertion : NodeOperation EmptyAttributes
insertion = insert (0 ∷ 1 ∷ []) one_node

abbrev deletion : NodeOperation EmptyAttributes
deletion = delete (0 ∷ 2 ∷ []) one_node

abbrev change : NodeOperation EmptyAttributes
change = update (0 ∷ 2 ∷ 3 ∷ []) (attributes_changeset empty_attributes empty_attributes)

transform-transform_example :
    Path.transform
      (Path.transform (0 ∷ 1 ∷ []) (0 ∷ 2 ∷ []) 1)
      (Path.transform (0 ∷ 1 ∷ []) (0 ∷ 2 ∷ 3 ∷ []) 1)
      2
    ≡ Path.transform
        (Path.transform (0 ∷ 2 ∷ []) (0 ∷ 1 ∷ []) 2)
        (Path.transform (0 ∷ 2 ∷ []) (0 ∷ 2 ∷ 3 ∷ []) 2)
        1
transform-transform_example = transform-transform (0 ∷ 1 ∷ []) (0 ∷ 2 ∷ []) (0 ∷ 2 ∷ 3 ∷ []) 1 2

transform-injective_example : second_child ≡ second_child
transform-injective_example = transform-injective (0 ∷ 1 ∷ []) second_child second_child 1 refl

abbrev changes : Transaction EmptyAttributes
changes = record { operations = change ∷ deletion ∷ []; extension = empty_extension }
