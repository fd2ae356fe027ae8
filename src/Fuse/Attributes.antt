-- ===== src/Fuse/Attributes.antt =====
-- crates/daemon/src/fuse/jax_fs.rs: the handlers on names and attributes, with the truncation of
-- files, which is a change of an attribute.
use jax_fs.Prelude.{
  ℕ, zero, suc, ◌+◌, Bool, true, false, Option, none, some, List, [], ◌∷◌, ◌++◌, map_option,
  if◌then◌else◌, unwrap_or,
}
use jax_fs.Prelude.Results.{Result, ok, err}
use jax_fs.Ord.{u64_ord, ◌==◌}
use jax_fs.Ord.Lex.{lex_ord}
use jax_fs.BTreeMap.{get, insert}
use jax_fs.FilePath.{Name}
use jax_fs.Mount.Act.{gets, give, pure, modify, fail_if, ◌>>=◌, ◌>>◌}
use jax_fs.InodeTable.Paths.{parent_path}
use jax_fs.InodeTable.Table.{root_inode}
use jax_fs.Fuse.Volume.{Volume}
use jax_fs.Fuse.Cache.{Caches, CachedAttr, CachedDirEntry, invalidate, put_attr}
use jax_fs.Fuse.Octet.{resize}
use jax_fs.Fuse.State.{
  JaxFs, WriteBuffer, Errno, FileAttr, FileType, Handler, make_attr, kind_of, should_filter,
  child_path, to_path, path_of, inode_of, on_cache, request_save, on_mount,
}
use jax_fs.Fuse.Fetch.{fetch_attr, fetch_dir}

-- `OsStr::to_str`: a name that is no text is none.
abbrev pub OsStr : Type 0
OsStr = Option Name

-- A time in seconds after 1970, which one before that is not.
pub data TimeOrNow : Type 0 where
  specific_time : Option ℕ → TimeOrNow
  current_time : TimeOrNow

abbrev seconds : TimeOrNow → ℕ → ℕ
seconds (specific_time t) now = unwrap_or t now
seconds current_time now = now

pub record DirItem : Type 0 where
  pub ino : ℕ
  pub kind : FileType
  pub name : Name

-- The items from an offset on, each with the offset of the next.
unfoldable pub from_offset : ℕ → ℕ → List DirItem → List (DirItem × ℕ)
from_offset i offset [] = []
from_offset i zero (item ∷ items) = (item, i + 1) ∷ from_offset (i + 1) zero items
from_offset i (suc offset) (item ∷ items) = from_offset (i + 1) offset items

-- The loop of `readdir`, whose reply tells when it has no room for an item.
unfoldable pub fill :
    (List (DirItem × ℕ) → DirItem × ℕ → Bool)
    → List (DirItem × ℕ)
    → List (DirItem × ℕ)
    → List (DirItem × ℕ)
fill is_full page [] = page
fill is_full page (item ∷ items) =
    let more = fill is_full (page ++ item ∷ []) items in if is_full page item then page else more

module _ (m : Volume) (c : Caches) where
  abbrev pub reply_attr : ℕ → Option CachedAttr → Result Errno FileAttr
  reply_attr inode none = err Errno.enoent
  reply_attr inode (some attr) = ok (make_attr inode attr)

  abbrev pub to_str : OsStr → Errno → Handler m c Name
  to_str none e = give (err e)
  to_str (some name) e = pure name

  abbrev pub found : Name → Option CachedAttr → Handler m c FileAttr
  found path none = give (err Errno.enoent)
  found path (some attr) = do inode ← inode_of m c path; pure (make_attr inode attr)

  unfoldable pub lookup : ℕ → ℕ → OsStr → Handler m c FileAttr
  unfolding path_of fetch_attr inode_of should_filter child_path make_attr
  lookup now parent os_name = do
    name ← to_str os_name Errno.enoent
    fail_if (should_filter name) Errno.enoent
    parent_path ← path_of m c parent
    attr ← fetch_attr m c now (child_path parent_path name)
    found (child_path parent_path name) attr

  unfoldable pub getattr : ℕ → ℕ → Handler m c FileAttr
  unfolding path_of fetch_attr make_attr
  getattr now ino = do
    path ← path_of m c ino
    attr ← fetch_attr m c now path
    give (reply_attr ino attr)

  abbrev pub is_directory : Option CachedAttr → Bool
  is_directory none = false
  is_directory (some attr) = attr.is_dir

  -- The buffer of the handle, where there are both.
  unfoldable pub buffer_of : Option ℕ → JaxFs m c → Option (ℕ × WriteBuffer)
  unfolding get
  buffer_of none s = none
  buffer_of (some fh) s = map_option (λ b. (fh, b)) (get fh s.write_buffers)

  -- What is written back for a truncated file; one that cannot be read counts as empty.
  unfoldable pub truncated : Name → ℕ → m.Tree → List ℕ
  unfolding to_path
  truncated path zero t = []
  truncated path (suc n) t = resize (suc n) (unwrap_or (m.cat (to_path path) t) [])

  unfoldable pub truncate : Name → ℕ → Option (ℕ × WriteBuffer) → Handler m c (Unit {0})
  unfolding on_mount invalidate to_path truncated insert
  truncate path size (some (fh, b)) = modify λ s. record s {
    write_buffers =
        insert fh (record { content = resize size b.content; dirty = true }) s.write_buffers;
  }
  truncate path size none = do
    bytes ← gets (λ s. truncated path size s.mount)
    on_mount m c (m.add (to_path path) bytes)
    modify (λ s. request_save m c (on_cache m c (invalidate c path) s))

  unfoldable pub handle_truncate : ℕ → Name → ℕ → Option ℕ → Handler m c (Unit {0})
  unfolding fetch_attr truncate buffer_of
  handle_truncate now path size fh = do
    attr ← fetch_attr m c now path
    fail_if (is_directory attr) Errno.eisdir
    buffer ← gets (buffer_of fh)
    truncate path size buffer

  abbrev pub set_size : ℕ → Name → Option ℕ → Option ℕ → Handler m c (Unit {0})
  set_size now path none fh = pure tt
  set_size now path (some size) fh = do
    read_only ← gets (λ s. s.read_only)
    fail_if read_only Errno.erofs
    handle_truncate now path size fh

  abbrev pub put_mtime : Name → ℕ → Option CachedAttr → Handler m c (Unit {0})
  put_mtime path t none = pure tt
  put_mtime path t (some attr) = modify (on_cache m c (put_attr c path (record attr { mtime = t })))

  -- The time is kept in the cache only.
  abbrev pub set_mtime : ℕ → Name → Option TimeOrNow → Handler m c (Unit {0})
  set_mtime now path none = pure tt
  set_mtime now path (some t) = do
    attr ← fetch_attr m c now path
    put_mtime path (seconds t now) attr

  unfoldable pub setattr : ℕ → ℕ → Option ℕ → Option TimeOrNow → Option ℕ → Handler m c FileAttr
  unfolding path_of fetch_attr handle_truncate put_attr make_attr
  setattr now ino size mtime fh = do
    path ← path_of m c ino
    set_size now path size fh
    set_mtime now path mtime
    attr ← fetch_attr m c now path
    give (reply_attr ino attr)

  unfoldable pub item_of : Name → CachedDirEntry → Handler m c DirItem
  unfolding inode_of child_path
  item_of path entry = do
    ino ← inode_of m c (child_path path entry.name)
    pure (record { ino = ino; kind = kind_of entry.is_dir; name = entry.name })

  unfoldable pub items_of : Name → List CachedDirEntry → Handler m c (List DirItem)
  unfolding item_of
  items_of path [] = pure []
  items_of path (entry ∷ entries) = do
    item ← item_of path entry
    items ← items_of path entries
    pure (item ∷ items)

  -- The number of the directory above; the root is above itself.
  unfoldable pub parent_ino : ℕ → Name → Handler m c ℕ
  unfolding inode_of parent_path
  parent_ino ino path s =
      let up = inode_of m c (parent_path path) s in if ino == root_inode then (s, ok ino) else up

  abbrev pub present : Option (List CachedDirEntry) → Result Errno (List CachedDirEntry)
  present none = err Errno.eio
  present (some entries) = ok entries

  -- All items of a directory: "." and ".." and its entries.
  unfoldable pub all_entries : ℕ → Handler m c (List DirItem)
  unfolding path_of fetch_dir parent_ino items_of
  all_entries ino = do
    path ← path_of m c ino
    listing ← fetch_dir m c path
    entries ← give (present listing)
    up ← parent_ino ino path
    items ← items_of path entries
    pure (
        record { ino = ino; kind = FileType.directory; name = b'.' ∷ [] }
        ∷ record { ino = up; kind = FileType.directory; name = b'.' ∷ b'.' ∷ [] }
        ∷ items)

  unfoldable pub readdir :
      (List (DirItem × ℕ) → DirItem × ℕ → Bool) → ℕ → ℕ → Handler m c (List (DirItem × ℕ))
  unfolding all_entries from_offset fill
  readdir is_full ino offset = do
    items ← all_entries ino
    pure (fill is_full [] (from_offset 0 offset items))
