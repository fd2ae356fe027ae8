-- ===== src/Sync.antt =====
-- The job that brings a bucket up to date with a peer: crates/common/src/peer/sync/sync_bucket.rs.
pub mod Provenance
pub mod Authors
pub mod Chain
pub mod Download
pub mod Fetched
pub mod Job
pub mod Applied
pub mod Safety
pub mod Ping
pub mod Pinged
