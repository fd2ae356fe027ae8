-- ===== src/PathOps.antt =====
-- The operation log of crates/common/src/mount/path_ops.rs.
pub mod Op
pub mod Log
pub mod Resolve
pub mod Valid
pub mod Semilattice
pub mod Clock
pub mod Winner
pub mod MergeResolver
pub mod Outcome
pub mod Retain
pub mod Related
pub mod LastWrite
pub mod RecordWins
pub mod ResolveAll
pub mod Fork
pub mod BaseWins
pub mod Converge
pub mod ConflictCopies
