-- ===== src/Manifest.antt =====
-- Manifests, the versions of a bucket: crates/common/src/mount/manifest.rs and principal.rs.
pub mod Platform
pub mod Types
pub mod Signing
pub mod Laws
