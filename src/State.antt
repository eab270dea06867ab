-- ===== src/State.antt =====
-- state/state.go: an engine's cursors, pending projection and activity index.
pub mod Defs
pub mod Order
pub mod Pending
pub mod Cursor
pub mod Merge
pub mod Load
pub mod Activity
pub mod File
pub mod Lock
pub mod Tags
pub mod Store
pub mod Config
mod Tests
mod OrderTests
mod MergeTests
mod CursorTests
mod LoadTests
mod LockTests
