-- ===== src/Mount.antt =====
-- The file tree of a bucket and its versions: crates/common/src/mount/mount_inner.rs, node.rs and
-- pins.rs.
pub mod Node
pub mod Pins
pub mod Vault
pub mod Act
pub mod Blobs
pub mod Walk
pub mod Session
pub mod Files
pub mod Tree
pub mod Grows
pub mod Seek
pub mod Placed
pub mod Replaced
pub mod Kept
pub mod Adding
pub mod Entries
pub mod Unlinked
pub mod Removing
pub mod Moving
pub mod Save
pub mod Reads
pub mod Shares
pub mod Version
pub mod Saved
pub mod Durable
pub mod Succeeds
pub mod Spliced
pub mod Chain
pub mod Deep
pub mod Merge
pub mod Ancestor
pub mod Unharmed
pub mod Making
pub mod Unmade
pub mod Merged
