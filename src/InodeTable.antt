-- ===== src/InodeTable.antt =====
-- The numbers that the FUSE mount gives to paths: crates/daemon/src/fuse/inode_table.rs.
pub mod Paths
pub mod Table
pub mod Inverse
