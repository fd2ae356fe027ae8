-- ===== src/Fuse/Looking.antt =====
-- The handlers that look up names and attributes leave a read-only file system as it is:
-- crates/daemon/src/fuse/jax_fs.rs.
use jax_fs.Prelude.{ℕ, refl, Bool, Option, none, some, List, [], ◌∷◌, Bool-cases, inl, inr}
use jax_fs.Ord.{u64_ord, ◌==◌}
use jax_fs.InodeTable.Table.{root_inode}
use jax_fs.InodeTable.Paths.{parent_path}
use jax_fs.Ord.Lex.{lex_ord}
use jax_fs.FilePath.{Name}
use jax_fs.Mount.Act.{fail_if, give, pure, ◌>>=◌}
use jax_fs.Fuse.Volume.{Volume}
use jax_fs.Fuse.Cache.{Caches, CachedAttr, CachedDirEntry}
use jax_fs.Fuse.State.{Errno, path_of, inode_of, should_filter, child_path, kind_of}
use jax_fs.Fuse.Fetch.{fetch_attr, fetch_dir}
use jax_fs.Fuse.Attributes.{
  OsStr, TimeOrNow, handle_truncate, lookup, getattr, setattr, readdir, all_entries, items_of,
  item_of, present, DirItem, parent_ino, to_str, set_size, set_mtime, put_mtime,
}
use jax_fs.Fuse.Untouched.{
  same, bind-Untouched, refused, fail_if-Untouched, fetch_attr-Untouched, fetch_dir-Untouched,
  path_of-Untouched, inode_of-Untouched, to_str-Untouched, found-Untouched, IsSafe,
}

module _ (m : Volume) (c : Caches) where
  pub lookup-Untouched : (now parent : ℕ) (name : OsStr) → IsSafe m c (lookup m c now parent name)
  unfolding lookup
  lookup-Untouched now parent name =
      bind-Untouched m c (to_str m c name Errno.enoent) _ (to_str-Untouched m c name Errno.enoent)
        λ n.
          bind-Untouched m c (fail_if (should_filter n) Errno.enoent) _
            (fail_if-Untouched m c (should_filter n) Errno.enoent)
            λ u.
              bind-Untouched m c (path_of m c parent) _ (path_of-Untouched m c parent)
                λ parent_path.
                  bind-Untouched m c (fetch_attr m c now (child_path parent_path n)) _
                    (fetch_attr-Untouched m c now (child_path parent_path n))
                    (found-Untouched m c (child_path parent_path n))

  pub getattr-Untouched : (now ino : ℕ) → IsSafe m c (getattr m c now ino)
  unfolding getattr
  getattr-Untouched now ino =
      bind-Untouched m c (path_of m c ino) _ (path_of-Untouched m c ino) λ path.
        bind-Untouched m c (fetch_attr m c now path) _ (fetch_attr-Untouched m c now path)
          (λ attr. same m c)

  set_size-Untouched :
      (now : ℕ) (path : Name) (size fh : Option ℕ) → IsSafe m c (set_size m c now path size fh)
  set_size-Untouched now path none fh s r = same m c s r
  set_size-Untouched now path (some size) fh s r =
      rw (refused m c s.read_only (λ u. handle_truncate m c now path size fh) s r) (same m c s r)

  put_mtime-Untouched :
      (path : Name) (t : ℕ) (attr : Option CachedAttr) → IsSafe m c (put_mtime m c path t attr)
  put_mtime-Untouched path t none s r = same m c s r
  put_mtime-Untouched path t (some a) s r = record {
    mount_kept = refl;
    save_kept = refl;
    read_only = r;
  }

  set_mtime-Untouched :
      (now : ℕ) (path : Name) (mtime : Option TimeOrNow) → IsSafe m c (set_mtime m c now path mtime)
  set_mtime-Untouched now path none = same m c
  set_mtime-Untouched now path (some t) =
      bind-Untouched m c (fetch_attr m c now path) _ (fetch_attr-Untouched m c now path)
        (put_mtime-Untouched path _)

  pub setattr-Untouched :
      (now ino : ℕ) (size : Option ℕ) (mtime : Option TimeOrNow) (fh : Option ℕ)
      → IsSafe m c (setattr m c now ino size mtime fh)
  unfolding setattr
  setattr-Untouched now ino size mtime fh =
      bind-Untouched m c (path_of m c ino) _ (path_of-Untouched m c ino) λ path.
        bind-Untouched m c (set_size m c now path size fh) _ (set_size-Untouched now path size fh)
          λ u.
            bind-Untouched m c (set_mtime m c now path mtime) _ (set_mtime-Untouched now path mtime)
              λ w.
                bind-Untouched m c (fetch_attr m c now path) _ (fetch_attr-Untouched m c now path)
                  (λ attr. same m c)

  parent_ino-Untouched : (ino : ℕ) (path : Name) → IsSafe m c (parent_ino m c ino path)
  unfolding parent_ino
  parent_ino-Untouched ino path s r = elim (Bool-cases (ino == root_inode)) [
    | inl t ↦ rw t (same m c s r)
    | inr f ↦ rw f (inode_of-Untouched m c (parent_path path) s r)
  ]

  item_of-Untouched : (path : Name) (entry : CachedDirEntry) → IsSafe m c (item_of m c path entry)
  unfolding item_of
  item_of-Untouched path entry =
      bind-Untouched m c {B = DirItem} (inode_of m c (child_path path entry.name))
        (λ i. pure (record { ino = i; kind = kind_of entry.is_dir; name = entry.name }))
        (inode_of-Untouched m c (child_path path entry.name)) (λ i. same m c)

  items_of-Untouched :
      (path : Name) (entries : List CachedDirEntry) → IsSafe m c (items_of m c path entries)
  unfolding items_of
  items_of-Untouched path [] = same m c
  items_of-Untouched path (entry ∷ entries) =
      bind-Untouched m c {B = List DirItem} (item_of m c path entry)
        (λ item. items_of m c path entries >>= λ items. pure (item ∷ items))
        (item_of-Untouched path entry)
        λ item.
          bind-Untouched m c {B = List DirItem} (items_of m c path entries)
            (λ items. pure (item ∷ items)) (items_of-Untouched path entries) (λ items. same m c)

  all_entries-Untouched : (ino : ℕ) → IsSafe m c (all_entries m c ino)
  unfolding all_entries
  all_entries-Untouched ino =
      bind-Untouched m c (path_of m c ino) _ (path_of-Untouched m c ino) λ path.
        bind-Untouched m c (fetch_dir m c path) _ (fetch_dir-Untouched m c path) λ listing.
          bind-Untouched m c (give (present m c listing)) _ (same m c) λ entries.
            bind-Untouched m c (parent_ino m c ino path) _ (parent_ino-Untouched ino path) λ up.
              bind-Untouched m c (items_of m c path entries) _ (items_of-Untouched path entries)
                (λ items. same m c)

  pub readdir-Untouched :
      (is_full : List (DirItem × ℕ) → DirItem × ℕ → Bool) (ino offset : ℕ)
      → IsSafe m c (readdir m c is_full ino offset)
  unfolding readdir
  readdir-Untouched is_full ino offset =
      bind-Untouched m c (all_entries m c ino) _ (all_entries-Untouched ino) (λ items. same m c)
