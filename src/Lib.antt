-- ===== src/Lib.antt =====
-- The storage core of jax-fs, a peer-to-peer file system: buckets are trees of encrypted files whose
-- versions are manifests, chained by links; peers exchange them and merge what has diverged.
--
-- Parts and files:
--   Prelude, Ord, BTreeMap, FilePath: shared names, Rust's `Ord` with its laws, the ordered table of
--     the standard library as a sorted list of entries, paths as lists of names.
--   PathOps: crates/common/src/mount/path_ops.rs, the log of operations on paths. `PathOpLog` is the
--     struct of that name (PathOps/Op, PathOps/Log), `record_op` is its method `record`, `merge` and
--     `merge_with_resolver` keep their names (PathOps/Log, PathOps/MergeResolver), and so do
--     `resolve_path` and `resolve_all` (PathOps/Resolve). The other files of PathOps are proofs.
--   Conflict: crates/common/src/mount/conflict. Conflicts and results in Conflict/Types, the test
--     `operations_conflict` in Conflict/Detect, the four strategies in Conflict/Resolvers. A merge
--     asks the strategy, a function, for a `Resolution` of each conflict it meets.
--   BucketLog: crates/common/src/bucket_log, the log of the versions of each bucket.
--     BucketLog/Memory has the in-memory provider and the provided method `head`.
--   Manifest: crates/common/src/mount/manifest.rs and principal.rs. The structs and setters in
--     Manifest/Types, `sign` and `verify_signature` in Manifest/Signing; `Platform` has what both
--     take from third-party crates.
--   Sync: crates/common/src/peer/sync/sync_bucket.rs, the job that brings a bucket up to date with a
--     peer. `verify_author` and `verify_provenance` in Sync/Provenance, the walks
--     `find_common_ancestor` and `download_manifest_chain` in Sync/Chain, `apply_manifest_chain` and
--     `execute` in Sync/Job, which call the log of BucketLog. Sync/Ping has
--     crates/common/src/peer/protocol/messages/ping.rs and peer/sync/ping_peer.rs, by which two peers
--     find out which of them is behind. The other files of Sync are proofs.
--   InodeTable: crates/daemon/src/fuse/inode_table.rs, the numbers of paths in a FUSE mount.
--     Normal forms of paths in InodeTable/Paths, the two tables in InodeTable/Table (`remove` is
--     `remove_inode` there).
--   Mount: crates/common/src/mount/node.rs, pins.rs and mount_inner.rs. Nodes and pins in Mount/Node
--     and Mount/Pins. `Vault` (Mount/Vault) has what a mount takes from the store of blobs, from
--     encryption and from the codecs, and two records have what they promise, a third that
--     they refuse no write; Mount/Act is code that changes a state and may fail. Errors and the functions `_get_..._from_blobs` and
--     `_put_..._in_blobs` are in Mount/Blobs, `_get_node_at_path` and `_set_node_link_at_path` in
--     Mount/Walk, `MountInner`, `get`, `cat` and `ls` in Mount/Session, `add`, `rm`, `mkdir` and `mv`
--     in Mount/Files, `save`, `load`, `init` and the shares in Mount/Save; what changes the tree logs
--     its operation in the log of PathOps. The steps that `add`, `rm`, `mkdir` and `mv` have in common
--     are `replace_link` and `remove_link`. The other files are proofs.
--     Mount/Chain has the walks back along the versions, `collect_ops_since` and
--     `find_common_ancestor` (`find_mount_ancestor` there), Mount/Deep has `ls_deep`, Mount/Merge has
--     `apply_resolved_state` and `merge_from`; these take fuel. The walks end since the links of
--     manifests are hashes, the recursion of `ls_deep` since the tree is one.
--   Fuse: crates/daemon/src/fuse/jax_fs.rs and cache.rs, a bucket as a file system of the kernel.
--     `Volume` (Fuse/Volume) has what the handlers take from a mount, and the mounts of Mount/Files
--     fill it. The caches are in Fuse/Cache, with the crate moka as a parameter, slices of bytes in
--     Fuse/Octet, the state `JaxFs` in Fuse/State, what is read through the cache in Fuse/Fetch. The
--     handlers are in Fuse/Attributes (`lookup`, `getattr`, `setattr`, `readdir`), Fuse/Content
--     (`read`, `open` as `open_file`, `write`, `flush`, `release`) and Fuse/Change (`create`, `mkdir`,
--     `unlink`, `rmdir`, `rename`); they use the numbers of InodeTable. Fuse/Calls has any order of
--     calls and of events of the sync engine. The other files are proofs.
--   Tests: runs of the operations on small inputs.
--
-- A method that takes `&mut self` is a function to the new state. Public keys, links and bucket
-- ids are parameters with a total order (an instance argument), since the code only compares
-- them; the text of a hash is a parameter of `conflict_file`. The job of Sync takes the download
-- of a manifest and the local blobs as functions from links, and a queue that takes every job.
-- Numbers are natural numbers: a `u64` that is added to wraps at 2^64, as in a release build, and
-- a theorem that needs room below it says so. Loops are recursions on the list they run over.
-- `u64_to_string` writes at most 20 digits: every number below 2^64 has at most 20. The two walks
-- of Sync/Chain take fuel, and enough is any number beyond one that falls along the links, which
-- there is since a link is a hash of what it names.
--
-- A mount is its `MountInner` with the blobs below it, one call at a time; randomness is a count of
-- draws. An absolute path is the list of its components.
--
-- Not modelled: locks that fail, logging, the encoders, encryption, the network, the store of
-- blobs, the daemon's requests and tables and the user interfaces, since they are third-party code
-- or glue around it. Of the FUSE mount: the stubs for extended attributes, and the processes that
-- start and stop mounts. Two handlers do not run at once: each call of the kernel is one step.
pub mod Prelude
pub mod Ord
pub mod BTreeMap
pub mod FilePath
pub mod PathOps
pub mod Conflict
pub mod BucketLog
pub mod Manifest
pub mod Sync
pub mod InodeTable
pub mod Mount
pub mod Fuse
pub mod Tests
