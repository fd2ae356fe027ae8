-- ===== src/Fuse/State.antt =====
-- crates/daemon/src/fuse/jax_fs.rs: the state of a mounted file system, what it answers, and the
-- small methods that the handlers share. A handler that calls `reply.error` is one that fails.
use jax_fs.Prelude.{
  ℕ, ◌+◌, ◌/◌, ◌%◌, Bool, true, false, ◌||◌, Option, List, [], ◌∷◌, ◌++◌, map_option, u64_mod,
  if◌then◌else◌,
}
use jax_fs.Prelude.Results.{ok, err, ok_or}
use jax_fs.Ord.{u64_ord, ◌==◌}
use jax_fs.Ord.Lex.{lex, lex_ord}
use jax_fs.BTreeMap.{BTreeMap}
use jax_fs.FilePath.{Name, FilePath}
use jax_fs.Mount.Act.{Act}
use jax_fs.InodeTable.Paths.{root}
use jax_fs.InodeTable.Table.{InodeTable, new_table, get_path, get_or_create}
use jax_fs.Fuse.Volume.{Volume}
use jax_fs.Fuse.Cache.{Caches, CachedAttr, FileCache, new_cache, invalidate_all}

pub record WriteBuffer : Type 0 where
  pub content : List ℕ
  pub dirty : Bool

-- `JaxFs`. Of the channel for requests to save the mount, the requests sent are counted, which all
-- name this mount.
pub record JaxFs (m : Volume) (c : Caches) : Type 0 where
  pub mount : m.Tree
  pub mount_id : Name
  pub inodes : InodeTable
  pub write_buffers : BTreeMap ℕ WriteBuffer
  pub cache : FileCache c
  pub save_tx : Option ℕ
  pub read_only : Bool
  pub next_fh : ℕ

pub data Errno : Type 0 where
  enoent : Errno
  eisdir : Errno
  eio : Errno
  erofs : Errno
  einval : Errno
  enotsup : Errno

pub data FileType : Type 0 where
  directory : FileType
  regular_file : FileType

-- `FileAttr`: the four times are the same, and the other fields do not vary.
pub record FileAttr : Type 0 where
  pub ino : ℕ
  pub size : ℕ
  pub blocks : ℕ
  pub mtime : ℕ
  pub kind : FileType
  pub perm : ℕ

abbrev pub block_size : ℕ
block_size = 512

abbrev pub kind_of : Bool → FileType
kind_of true = FileType.directory
kind_of false = FileType.regular_file

-- The modes are octal 755 and 644.
unfoldable pub make_attr : ℕ → CachedAttr → FileAttr
make_attr inode attr = record {
  ino = inode;
  size = attr.size;
  blocks = (attr.size + 511) / block_size;
  mtime = attr.mtime;
  kind = kind_of attr.is_dir;
  perm = if attr.is_dir then 493 else 420;
}

abbrev is_prefix : Name → Name → Bool
is_prefix [] s = true
is_prefix (b ∷ t) [] = false
is_prefix (b ∷ t) (d ∷ s) = let rest = is_prefix t s in if b == d then rest else false

-- Names such as "._x", ".DS_Store" and ".Spotlight-V100".
unfoldable pub should_filter : Name → Bool
unfolding lex
should_filter name =
    is_prefix (46 ∷ 95 ∷ []) name
    || name == (46 ∷ 68 ∷ 83 ∷ 95 ∷ 83 ∷ 116 ∷ 111 ∷ 114 ∷ 101 ∷ [])
    || name
      == (46 ∷ 83 ∷ 112 ∷ 111 ∷ 116 ∷ 108 ∷ 105 ∷ 103 ∷ 104 ∷ 116 ∷ 45 ∷ 86 ∷ 49 ∷ 48 ∷ 48 ∷ [])

-- The full path of a name in a directory.
unfoldable pub child_path : Name → Name → Name
unfolding lex
child_path parent_path name =
    if parent_path == root then b'/' ∷ name else parent_path ++ b'/' ∷ name

-- The components of a text path, as `Path` has them: those that are empty or a dot are left out.
abbrev add_component : Name → FilePath → FilePath
add_component [] path = path
add_component (c ∷ s) path = if (c ∷ s) == (46 ∷ []) then path else (c ∷ s) ∷ path

abbrev split_from : Name → Name → FilePath
split_from piece [] = add_component piece []
split_from piece (c ∷ s) =
    let rest = split_from [] s in
    let more = split_from (piece ++ c ∷ []) s in
    if c == b'/' then add_component piece rest else more

unfoldable pub to_path : Name → FilePath
unfolding lex
to_path path = split_from [] path

module _ (m : Volume) (c : Caches) where
  abbrev pub Handler : Type 0 → Type 0
  Handler A = Act (JaxFs m c) Errno A

  -- `JaxFs::new`
  unfoldable pub new_fs : m.Tree → Name → Bool → Option ℕ → JaxFs m c
  new_fs mount mount_id read_only save_tx = record {
    mount = mount;
    mount_id = mount_id;
    inodes = new_table;
    write_buffers = [];
    cache = new_cache c;
    save_tx = save_tx;
    read_only = read_only;
    next_fh = 1;
  }

  unfoldable pub next_handle : Handler ℕ
  next_handle s = (record s { next_fh = (s.next_fh + 1) % u64_mod }, ok s.next_fh)

  -- The path of a number.
  unfoldable pub path_of : ℕ → Handler Name
  unfolding get_path
  path_of ino s = (s, ok_or (get_path ino s.inodes) Errno.enoent)

  -- `get_or_create` on the table of the file system.
  unfoldable pub inode_of : Name → Handler ℕ
  unfolding get_or_create
  inode_of path s =
      let (t, inode) = get_or_create path s.inodes in (record s { inodes = t }, ok inode)

  abbrev pub on_cache : (FileCache c → FileCache c) → JaxFs m c → JaxFs m c
  on_cache f s = record s { cache = f s.cache }

  -- A request to save the mount, where there is a channel for it.
  abbrev pub request_save : JaxFs m c → JaxFs m c
  request_save s = record s { save_tx = map_option (λ n. n + 1) s.save_tx }

  -- A call of the mount that changes it; its error becomes an input-output error.
  unfoldable pub on_mount : (m.Tree → m.Tree × Bool) → Handler (Unit {0})
  on_mount f s =
      let (t, done) = f s.mount in (record s { mount = t }, if done then ok tt else err Errno.eio)

  -- What the listener of the sync engine hears; the channel may also have dropped events.
  pub data SyncEvent : Type 0 where
    bucket_updated : Name → SyncEvent
    mount_invalidated : Name → SyncEvent
    lagged : ℕ → SyncEvent

  unfoldable pub on_sync_event : SyncEvent → JaxFs m c → JaxFs m c
  unfolding invalidate_all lex
  on_sync_event (mount_invalidated id) s =
      if id == s.mount_id then on_cache (invalidate_all c) s else s
  on_sync_event (bucket_updated id) s = on_cache (invalidate_all c) s
  on_sync_event (lagged n) s = on_cache (invalidate_all c) s
