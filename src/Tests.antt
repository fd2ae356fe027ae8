-- ===== src/Tests.antt =====
-- Runs of the operations on small inputs, and the theorems applied to them.
mod Logs
mod Operations
mod Strategies
mod Buckets
mod Manifests
mod Inodes
mod Disk
mod DiskLaws
mod Mounts
mod Saves
mod Durable
mod Merges
mod Pings
mod Volumes
mod Fuse
