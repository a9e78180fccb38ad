-- ===== src/Delta.antt =====
-- The deltas of shared-lib/lib-ot/src/core/delta: operations on a text, in the order of the text.
pub mod Operation
pub mod Ops
pub mod Meaning
pub mod Add
pub mod Formats
pub mod Lengths
pub mod Extends
pub mod Apply
pub mod Invert
pub mod InvertDelta
pub mod Builder
pub mod Transform
pub mod Cursor
pub mod Compose
pub mod Newline
