-- ===== src/Fuse/Fetch.antt =====
-- crates/daemon/src/fuse/jax_fs.rs: what the handlers read off the mount through the cache.
use jax_fs.Prelude.{
  ℕ, Bool, true, false, Option, none, some, List, [], ◌∷◌, if◌then◌else◌, length, unwrap_or,
  map_option,
}
use jax_fs.Prelude.Results.{ok}
use jax_fs.Ord.{u64_ord, ◌==◌}
use jax_fs.Ord.Lex.{lex, lex_ord}
use jax_fs.FilePath.{Name, FilePath, file_name}
use jax_fs.InodeTable.Paths.{root, parent_path, filename}
use jax_fs.Fuse.Volume.{Volume}
use jax_fs.Fuse.Cache.{
  Caches, CachedAttr, CachedContent, CachedDirEntry, FileCache, get_attr, get_content, get_dir,
  put_attr, put_content, put_dir,
}
use jax_fs.Fuse.State.{Handler, should_filter, to_path, on_cache}

module _ (m : Volume) (c : Caches) where
  -- The attributes of a directory, and of a file of so many bytes.
  abbrev pub attr_of : ℕ → Bool → ℕ → CachedAttr
  attr_of size is_dir now = record { size = size; is_dir = is_dir; mime_type = none; mtime = now }

  -- The size of a file is that of its content, which is fetched for it.
  abbrev size_of : Bool → FilePath → m.Tree → ℕ
  size_of true path t = 0
  size_of false path t = unwrap_or (map_option (λ b. length b) (m.cat path t)) 0

  -- The item of a directory that has the name.
  unfoldable pub attr_in : Name → List (FilePath × Bool) → m.Tree → ℕ → Option CachedAttr
  unfolding file_name lex
  attr_in name [] t now = none
  attr_in name ((path, is_dir) ∷ items) t now =
      let rest = attr_in name items t now in
      elim (file_name path) [
        | none ↦ rest
        | some n ↦ if n == name then some (attr_of (size_of is_dir path t) is_dir now) else rest
      ]

  abbrev attr_among : Name → Option (List (FilePath × Bool)) → m.Tree → ℕ → Option CachedAttr
  attr_among name none t now = none
  attr_among name (some items) t now = attr_in name items t now

  -- The block that `fetch_attr` runs when the cache has nothing.
  unfoldable pub mount_attr : Name → m.Tree → ℕ → Option CachedAttr
  unfolding attr_in parent_path filename to_path lex
  mount_attr path t now =
      if path == root
      then some (attr_of 0 true now)
      else attr_among (filename path) (m.ls (to_path (parent_path path)) t) t now

  -- The result of a fetch is put into the cache, if there is one.
  abbrev pub keep_some :
      {A : Type 0} → (A → FileCache c → FileCache c) → Option A → Handler m c (Option A)
  keep_some put none s = (s, ok none)
  keep_some put (some a) s = (on_cache m c (put a) s, ok (some a))

  abbrev pub or_fetch :
      {A : Type 0} → Option A → (A → FileCache c → FileCache c) → Option A → Handler m c (Option A)
  or_fetch (some a) put fetched s = (s, ok (some a))
  or_fetch none put fetched s = keep_some put fetched s

  unfoldable pub fetch_attr : ℕ → Name → Handler m c (Option CachedAttr)
  unfolding mount_attr get_attr put_attr
  fetch_attr now path s =
      or_fetch (get_attr c path s.cache) (put_attr c path) (mount_attr path s.mount now) s

  -- The items of a listing, less those that the kernel is not shown.
  unfoldable pub shown : List (FilePath × Bool) → List CachedDirEntry
  unfolding file_name should_filter
  shown [] = []
  shown ((path, is_dir) ∷ items) =
      let rest = shown items in
      elim (file_name path) [
        | none ↦ rest
        | some n ↦ if should_filter n then rest else record { name = n; is_dir = is_dir } ∷ rest
      ]

  unfoldable pub fetch_dir : Name → Handler m c (Option (List CachedDirEntry))
  unfolding get_dir put_dir shown to_path
  fetch_dir path s =
      or_fetch (get_dir c path s.cache) (put_dir c path)
        (map_option shown (m.ls (to_path path) s.mount)) s

  -- "application/octet-stream"
  abbrev octet_stream : Name
  octet_stream =
      97 ∷ 112 ∷ 112 ∷ 108 ∷ 105 ∷ 99 ∷ 97 ∷ 116 ∷ 105 ∷ 111 ∷ 110 ∷ 47 ∷ 111 ∷ 99 ∷ 116 ∷ 101 ∷ 116
      ∷ 45 ∷ 115 ∷ 116 ∷ 114 ∷ 101 ∷ 97 ∷ 109 ∷ []

  abbrev pub content_of : List ℕ → CachedContent
  content_of bytes = record { data_bytes = bytes; mime_type = octet_stream }

  unfoldable pub fetch_content : Name → Handler m c (Option CachedContent)
  unfolding get_content put_content to_path
  fetch_content path s =
      or_fetch (get_content c path s.cache) (put_content c path)
        (map_option content_of (m.cat (to_path path) s.mount)) s
