-- ===== src/Native.antt =====
-- native/: the collections of UUIDs that a cycle publishes.
pub mod Collection
pub mod Content
pub mod Database
pub mod InMemory
pub mod Cursor
pub mod Batch
pub mod Persist
pub mod Load
pub mod Builder
