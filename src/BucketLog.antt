-- ===== src/BucketLog.antt =====
-- The bucket log: crates/common/src/bucket_log.
pub mod Memory
pub mod Observe
pub mod Valid
pub mod Append
pub mod Head
pub mod Published
