-- ===== src/Fuse/Change.antt =====
-- crates/daemon/src/fuse/jax_fs.rs: the handlers that make, remove and move files and directories.
use jax_fs.Prelude.{ℕ, Bool, true, false, [], if◌then◌else◌}
use jax_fs.Ord.{u64_ord, ◌==◌}
use jax_fs.Ord.Lex.{lex, lex_ord}
use jax_fs.BTreeMap.{insert}
use jax_fs.FilePath.{Name}
use jax_fs.Mount.Act.{gets, pure, modify, fail_if, ◌>>=◌, ◌>>◌}
use jax_fs.InodeTable.Table
use jax_fs.InodeTable.Table.{remove_by_path}
use jax_fs.Fuse.Volume.{Volume}
use jax_fs.Fuse.Cache.{Caches, FileCache, invalidate, put_attr}
use jax_fs.Fuse.State.{
  Errno, FileAttr, Handler, make_attr, child_path, to_path, path_of, inode_of, next_handle,
  on_cache, on_mount,
}
use jax_fs.Fuse.Fetch.{attr_of}
use jax_fs.Fuse.Content.{no_buffer, put_buffer}
use jax_fs.Fuse.Attributes.{OsStr, to_str}

module _ (m : Volume) (c : Caches) where
  -- What the handlers that change the tree begin with, up to the path of the parent and the name.
  unfoldable pub writable_entry : ℕ → OsStr → Handler m c (Name × Name)
  unfolding path_of
  writable_entry parent os_name = do
    read_only ← gets (λ s. s.read_only)
    fail_if read_only Errno.erofs
    name ← to_str m c os_name Errno.einval
    parent_path ← path_of m c parent
    pure (parent_path, name)

  -- The number and the attributes of what was just made.
  unfoldable pub made_attr : ℕ → Name → Bool → Handler m c FileAttr
  unfolding inode_of put_attr make_attr
  made_attr now path is_dir = do
    inode ← inode_of m c path
    modify (on_cache m c (put_attr c path (attr_of m c 0 is_dir now)))
    pure (make_attr inode (attr_of m c 0 is_dir now))

  unfoldable pub create_at : ℕ → Name → Handler m c (FileAttr × ℕ)
  unfolding on_mount made_attr next_handle to_path insert
  create_at now path = do
    on_mount m c (m.add (to_path path) [])
    attr ← made_attr now path false
    fh ← next_handle m c
    modify (put_buffer m c fh no_buffer)
    pure (attr, fh)

  unfoldable pub create : ℕ → ℕ → OsStr → Handler m c (FileAttr × ℕ)
  unfolding writable_entry create_at child_path
  create now parent os_name = do
    r ← writable_entry parent os_name
    create_at now (child_path r.0 r.1)

  unfoldable pub mkdir_at : ℕ → Name → Name → Handler m c FileAttr
  unfolding on_mount made_attr invalidate to_path
  mkdir_at now parent_path path = do
    on_mount m c (m.mkdir (to_path path))
    attr ← made_attr now path true
    modify (on_cache m c (invalidate c parent_path))
    pure attr

  unfoldable pub mkdir : ℕ → ℕ → OsStr → Handler m c FileAttr
  unfolding writable_entry mkdir_at child_path
  mkdir now parent os_name = do
    r ← writable_entry parent os_name
    mkdir_at now r.0 (child_path r.0 r.1)

  unfoldable pub unlink_at : Name → Name → Handler m c (Unit {0})
  unfolding on_mount remove_by_path invalidate to_path
  unlink_at parent_path path = do
    on_mount m c (m.rm (to_path path))
    modify (λ s. record s {
      inodes = (remove_by_path path s.inodes).0;
      cache = invalidate c parent_path (invalidate c path s.cache);
    })

  unfoldable pub unlink : ℕ → OsStr → Handler m c (Unit {0})
  unfolding writable_entry unlink_at child_path
  unlink parent os_name = do r ← writable_entry parent os_name; unlink_at r.0 (child_path r.0 r.1)

  unfoldable pub rmdir : ℕ → OsStr → Handler m c (Unit {0})
  unfolding unlink
  rmdir parent os_name = unlink parent os_name

  -- The caches that a move concerns: both paths, and the listings of both parents.
  unfoldable pub invalidate_move : Name → Name → Name → Name → FileCache c → FileCache c
  unfolding invalidate lex
  invalidate_move old_path new_path old_parent new_parent cache =
      let both = invalidate c old_parent (invalidate c new_path (invalidate c old_path cache)) in
      if old_parent == new_parent then both else invalidate c new_parent both

  unfoldable pub rename_at : Name → Name → Name → Name → Handler m c (Unit {0})
  unfolding on_mount Table.rename invalidate_move to_path
  rename_at old_path new_path old_parent new_parent = do
    on_mount m c (m.mv (to_path old_path) (to_path new_path))
    modify (λ s. record s {
      inodes = (Table.rename old_path new_path s.inodes).0;
      cache = invalidate_move old_path new_path old_parent new_parent s.cache;
    })

  unfoldable pub rename : ℕ → OsStr → ℕ → OsStr → Handler m c (Unit {0})
  unfolding path_of rename_at child_path
  rename parent os_name newparent os_newname = do
    read_only ← gets (λ s. s.read_only)
    fail_if read_only Errno.erofs
    name ← to_str m c os_name Errno.einval
    newname ← to_str m c os_newname Errno.einval
    old_parent ← path_of m c parent
    new_parent ← path_of m c newparent
    rename_at (child_path old_parent name) (child_path new_parent newname) old_parent new_parent
