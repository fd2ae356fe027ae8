-- ===== src/Conflict.antt =====
-- Conflict resolution for merges of operation logs, crates/common/src/mount/conflict.
pub mod Types
pub mod Detect
pub mod Resolvers
