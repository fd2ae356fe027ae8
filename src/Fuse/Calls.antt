-- ===== src/Fuse/Calls.antt =====
-- crates/daemon/src/fuse/jax_fs.rs: the calls of the kernel, `Filesystem`, one at a time, and what
-- each leaves.
use jax_fs.Prelude.{ℕ, Bool, Option, List}
use jax_fs.Fuse.Volume.{Volume}
use jax_fs.Fuse.Cache.{Caches}
use jax_fs.Fuse.State.{JaxFs, SyncEvent, on_sync_event}
use jax_fs.Fuse.Content.{read, open_file, write, flush, release}
use jax_fs.Fuse.Attributes.{OsStr, TimeOrNow, DirItem, lookup, getattr, setattr, readdir}
use jax_fs.Fuse.Change.{create, mkdir, unlink, rmdir, rename}

pub data Call : Type 0 where
  lookup_call : ℕ → OsStr → Call
  getattr_call : ℕ → Call
  setattr_call : ℕ → Option ℕ → Option TimeOrNow → Option ℕ → Call
  readdir_call : (List (DirItem × ℕ) → DirItem × ℕ → Bool) → ℕ → ℕ → Call
  read_call : ℕ → ℕ → ℕ → ℕ → Call
  open_call : ℕ → ℕ → Call
  write_call : ℕ → ℕ → List ℕ → Call
  flush_call : ℕ → ℕ → Call
  release_call : ℕ → Call
  create_call : ℕ → OsStr → Call
  mkdir_call : ℕ → OsStr → Call
  unlink_call : ℕ → OsStr → Call
  rmdir_call : ℕ → OsStr → Call
  rename_call : ℕ → OsStr → ℕ → OsStr → Call

module _ (m : Volume) (c : Caches) where
  -- The state after a call at a time.
  unfoldable pub serve : ℕ → Call → JaxFs m c → JaxFs m c
  unfolding lookup getattr setattr readdir read open_file write flush release create mkdir unlink
      rmdir rename
  serve now (Call.lookup_call parent name) s = (lookup m c now parent name s).0
  serve now (Call.getattr_call ino) s = (getattr m c now ino s).0
  serve now (Call.setattr_call ino size mtime fh) s = (setattr m c now ino size mtime fh s).0
  serve now (Call.readdir_call is_full ino offset) s = (readdir m c is_full ino offset s).0
  serve now (Call.read_call ino fh offset size) s = (read m c ino fh offset size s).0
  serve now (Call.open_call ino flags) s = (open_file m c now ino flags s).0
  serve now (Call.write_call fh offset bytes) s = (write m c fh offset bytes s).0
  serve now (Call.flush_call ino fh) s = (flush m c ino fh s).0
  serve now (Call.release_call fh) s = (release m c fh s).0
  serve now (Call.create_call parent name) s = (create m c now parent name s).0
  serve now (Call.mkdir_call parent name) s = (mkdir m c now parent name s).0
  serve now (Call.unlink_call parent name) s = (unlink m c parent name s).0
  serve now (Call.rmdir_call parent name) s = (rmdir m c parent name s).0
  serve now (Call.rename_call parent name newparent newname) s =
      (rename m c parent name newparent newname s).0

  -- What a file system comes to: calls of the kernel, and events of the sync engine.
  pub data Reaches (s : JaxFs m c) : JaxFs m c → Type 0 where
    start : Reaches s s
    call : {t : JaxFs m c} (now : ℕ) (q : Call) → Reaches s t → Reaches s (serve now q t)
    hear : {t : JaxFs m c} (e : SyncEvent m c) → Reaches s t → Reaches s (on_sync_event m c e t)
