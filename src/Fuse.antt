-- ===== src/Fuse.antt =====
-- The mount of a bucket as a file system of the kernel: crates/daemon/src/fuse/jax_fs.rs and cache.rs.
pub mod Volume
pub mod Cache
pub mod Octet
pub mod State
pub mod Fetch
pub mod Content
pub mod Attributes
pub mod Change
pub mod Calls
pub mod Untouched
pub mod Looking
pub mod ReadOnly
pub mod Splice
pub mod Written
pub mod Flushed
pub mod Durable
pub mod Coherent
pub mod KeepsCoherent
pub mod Pages
pub mod Truncated
