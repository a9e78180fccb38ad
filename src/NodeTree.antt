-- ===== src/NodeTree.antt =====
-- shared-lib/lib-ot/src/core/node_tree: the operations on the tree of a document.
pub mod Path
pub mod Node
pub mod Operation
pub mod Transaction
