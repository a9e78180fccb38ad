-- ===== src/Lib.antt =====
-- A model of the editing core of AppFlowy. shared-lib/lib-ot is its operational transformation: the
-- deltas with which clients edit a text together. A delta is a list of operations (retain, insert,
-- delete) with the lengths, in UTF-16 code units, of the texts it takes and makes. A document of
-- frontend/rust-lib/flowy-client-sync composes the deltas of its edits and keeps their inverses. What is
-- edited becomes revisions, which frontend/rust-lib/flowy-revision stores, merges and sends to the
-- server, and into which it merges what the server pushes. Folders and grids are deltas too: of the
-- JSON of a structure that the pads of flowy-client-sync edit. frontend/rust-lib/flowy-task runs tasks for
-- the rest of the program.
--
-- - Prelude: Boolean tests, lists over the native numbers, the names that all files share.
-- - Errors: the error codes of shared-lib/lib-ot/src/errors.rs, and results.
-- - Interval: shared-lib/lib-ot/src/core/interval.rs.
-- - OtStr: shared-lib/lib-ot/src/core/ot_str.rs, a text as its Unicode scalar values; the UTF-8
--   encoding is written out, since `count_utf16_code_units` reads bytes.
-- - Attributes: the traits of shared-lib/lib-ot/src/core/delta/operation/operation.rs as a record of
--   operations that the deltas take as an instance, and `EmptyAttributes`.
-- - Attributes.HashMap: shared-lib/lib-ot/src/core/attributes/attribute.rs. The ordered map is another
--   library's: its methods are a record of functions, and what the code relies on a record of laws.
-- - Delta.Operation: `DeltaOperation` of the same file.
-- - Delta.Ops, Delta.Transform, Delta.Compose: `DeltaOperations` of
--   shared-lib/lib-ot/src/core/delta/ops.rs. The methods `delete`, `insert` and `retain` are
--   `add_delete`, `add_insert` and `add_retain`; the vector's last operations are reached by `on_last`
--   and `on_last_two`.
-- - Delta.InvertDelta, Delta.Builder: `invert` and `trim` of ops.rs, and builder.rs beside it.
-- - Delta.Cursor: shared-lib/lib-ot/src/core/delta/cursor.rs and iterator.rs, on which `compose` runs.
-- - Delta.Newline: the search for ends of lines and `seek` in the same two files.
-- - Delta.Meaning, Delta.Add, Delta.Formats, Delta.Lengths, Delta.Extends, Delta.Apply and Delta.Invert:
--   the effect of a list of operations on a text, with the attributes in Delta.Formats, and the proofs
--   that the code has it.
-- - NodeTree.Path, NodeTree.Node, NodeTree.Operation, NodeTree.Transaction: the files of the same names
--   in shared-lib/lib-ot/src/core/node_tree, the operations on the tree of a document. The attributes
--   and deltas of the nodes are over any attributes; a vector of nodes inside a node is `NodeList`.
-- - FlowyErrors: the errors of frontend/rust-lib/flowy-error and shared-lib/flowy-sync, and results; a
--   panic is an error of its own.
-- - Revision: shared-lib/revision-model/src/revision.rs. Its children are of
--   frontend/rust-lib/flowy-revision/src: Sequence and Persistence are rev_persistence.rs, Memory is
--   cache/memory.rs, Merge and Manager are rev_manager.rs with rev_queue.rs, Snapshot is
--   rev_snapshot.rs, Provider is ws_manager.rs, Conflict is conflict_resolve.rs. The concurrent map, the
--   disk, the store of snapshots and what each kind of object implements are records of functions.
-- - ClientDocument: document_pad.rs of frontend/rust-lib/flowy-client-sync/src/client_document, with
--   EditHistory for history.rs, View for view.rs and Extensions for files of extensions beside them. The
--   view holds its extensions as trait objects, which are functions here; the clock is an argument.
-- - Pad: what the pads of frontend/rust-lib/flowy-client-sync/src share, with util.rs: a document beside
--   the delta whose content is its JSON, `modify` for the methods `modify_workspaces`, `with_trash`,
--   `modify` and `modify_grid`, and the delta between two texts (`cal_diff`). The closure that a method
--   hands over is an edit, a function to what it returns and the document that it leaves. Pad.Delta,
--   Pad.Diff, Pad.InSync, Pad.Remote, Pad.Careful and Pad.Edits are the proofs that all pads share.
-- - Infra: `move_vec_element` of shared-lib/lib-infra/src/util.rs.
-- - Folder: shared-lib/folder-model/src; Folder.Edits and Folder.FolderPad: folder_pad.rs and builder.rs of
--   frontend/rust-lib/flowy-client-sync/src/client_folder.
-- - Grid: shared-lib/grid-model/src/grid_block.rs and grid_rev.rs; Grid.BlockPad and Grid.DatabasePad:
--   block_revision_pad.rs and database_revision_pad.rs of
--   frontend/rust-lib/flowy-client-sync/src/client_database.
-- - Task: task.rs of frontend/rust-lib/flowy-task/src, Task.Queue: queue.rs, Task.Dispatcher: store.rs
--   and scheduler.rs. Which list the heap of lists gives is an argument; a handler is a function from
--   the content of a task to how it ends.
-- - Tests: the theorems at short texts, small stores, folders and grids, and a few tasks.
--
-- A method that changes its object returns its result and the object, also where it fails. The tasks
-- of the asynchronous runtime are the steps they make: a command of the revision queue is handled where
-- it is sent, and the write that is put off (`tick_checkpoint`) is `checkpoint`, called at some time.
-- Revision ids count from 0 and are not bounded here; they are `i64` in the code.
--
-- Loops are on rounds. `transform` and `compose` have a round for each operation of the two deltas and
-- one for the last test: each round takes an operation off one of them for good. A call of
-- `next_with_len` has a round for each operation that the iterator still yields, one for the cached
-- operation and one for the last test. `none` is the end of the rounds or a panic.
--
-- The lengths count code units, but `apply` and `invert_str` take characters from the text. So the
-- theorems that run a delta on a text are for texts whose characters take one code unit (`IsBmp`),
-- and numbers are not bounded, where `usize` is: the lengths of texts in memory stay below it.
--
-- JSON, `dissimilar::diff` and the checksum are a record of functions (`Libraries`). What is assumed of
-- them is in `IsDiff` (the chunks are of the two texts) and `IsRoundTrip` (reading undoes writing).
-- Where a pad is run, the JSON of each document is of one-unit characters and shorter than 2 ^ 30, so
-- that the cursor's bound of 2 ^ 31 - 1 is behind two such texts (`HasJson`).
--
-- Not modelled: the tree that holds the nodes, most of the extensions that the view of a document is
-- built with, the pad of the views of a grid, the registration of task handlers and the loops that wait for
-- messages. The services, the network, the disk, the generated code and the user interface are input
-- and output around these.
pub mod Prelude
pub mod Errors
pub mod Interval
pub mod OtStr
pub mod Attributes
pub mod Delta
pub mod NodeTree
pub mod FlowyErrors
pub mod Revision
pub mod Pad
pub mod Infra
pub mod Folder
pub mod Grid
pub mod ClientDocument
pub mod Task
pub mod Tests
