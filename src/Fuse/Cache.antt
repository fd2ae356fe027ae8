-- ===== src/Fuse/Cache.antt =====
-- crates/daemon/src/fuse/cache.rs: three caches of the crate moka under normalised paths. What moka
-- keeps, and for how long, is up to it: an entry may be gone at any time.
use jax_fs.Prelude.{ℕ, ◌≡◌, ◌≢◌, ◌⊎◌, Bool, Option, none, some, List, if◌then◌else◌}
use jax_fs.Ord.{u64_ord, ◌==◌}
use jax_fs.Ord.Lex.{lex, lex_ord}
use jax_fs.FilePath.{Name}
use jax_fs.InodeTable.Paths.{root, normalize_path}

-- `moka::sync::Cache` with text keys.
pub record Moka (V : Type 0) : Type 1 where
  pub Cache : Type 0
  pub empty : Cache
  pub get : Name → Cache → Option V
  pub insert : Name → V → Cache → Cache
  pub invalidate : Name → Cache → Cache
  pub invalidate_all : Cache → Cache

-- What a cache may answer: nothing that was not inserted, and nothing that was invalidated since.
pub record MokaLaws {V : Type 0} (c : Moka V) : Type 0 where
  pub get-empty : (k : Name) → c.get k c.empty ≡ none
  pub get-insert :
      (k : Name) (a : V) (s : c.Cache)
      → (c.get k (c.insert k a s) ≡ none) ⊎ (c.get k (c.insert k a s) ≡ some a)
  pub get-insert_other :
      (k j : Name) (a : V) (s : c.Cache)
      → j ≢ k
      → (c.get j (c.insert k a s) ≡ none) ⊎ (c.get j (c.insert k a s) ≡ c.get j s)
  pub get-invalidate : (k : Name) (s : c.Cache) → c.get k (c.invalidate k s) ≡ none
  pub get-invalidate_other :
      (k j : Name) (s : c.Cache)
      → (c.get j (c.invalidate k s) ≡ none) ⊎ (c.get j (c.invalidate k s) ≡ c.get j s)
  pub get-invalidate_all : (k : Name) (s : c.Cache) → c.get k (c.invalidate_all s) ≡ none

pub record CachedContent : Type 0 where
  pub data_bytes : List ℕ
  pub mime_type : Name

-- The time of modification is a Unix timestamp, after 1970.
pub record CachedAttr : Type 0 where
  pub size : ℕ
  pub is_dir : Bool
  pub mime_type : Option Name
  pub mtime : ℕ

pub record CachedDirEntry : Type 0 where
  pub name : Name
  pub is_dir : Bool

-- The three caches that a file system is built with.
pub record Caches : Type 1 where
  pub content : Moka CachedContent
  pub attrs : Moka CachedAttr
  pub dirs : Moka (List CachedDirEntry)

pub record FileCache (c : Caches) : Type 0 where
  pub content : c.content.Cache
  pub attrs : c.attrs.Cache
  pub dirs : c.dirs.Cache

-- `normalize_key` does what `normalize_path` of the inode table does.
unfoldable pub normalize_key : Name → Name
unfolding normalize_path
normalize_key path = normalize_path path

module _ (c : Caches) where
  abbrev pub new_cache : FileCache c
  new_cache = record { content = c.content.empty; attrs = c.attrs.empty; dirs = c.dirs.empty }

  unfoldable pub get_content : Name → FileCache c → Option CachedContent
  unfolding normalize_key
  get_content path s = c.content.get (normalize_key path) s.content

  unfoldable pub put_content : Name → CachedContent → FileCache c → FileCache c
  unfolding normalize_key
  put_content path content s = record s {
    content = c.content.insert (normalize_key path) content s.content;
  }

  unfoldable pub get_attr : Name → FileCache c → Option CachedAttr
  unfolding normalize_key
  get_attr path s = c.attrs.get (normalize_key path) s.attrs

  unfoldable pub put_attr : Name → CachedAttr → FileCache c → FileCache c
  unfolding normalize_key
  put_attr path attr s = record s { attrs = c.attrs.insert (normalize_key path) attr s.attrs }

  unfoldable pub get_dir : Name → FileCache c → Option (List CachedDirEntry)
  unfolding normalize_key
  get_dir path s = c.dirs.get (normalize_key path) s.dirs

  unfoldable pub put_dir : Name → List CachedDirEntry → FileCache c → FileCache c
  unfolding normalize_key
  put_dir path entries s = record s { dirs = c.dirs.insert (normalize_key path) entries s.dirs }

  unfoldable pub invalidate : Name → FileCache c → FileCache c
  unfolding normalize_key
  invalidate path s = record {
    content = c.content.invalidate (normalize_key path) s.content;
    attrs = c.attrs.invalidate (normalize_key path) s.attrs;
    dirs = c.dirs.invalidate (normalize_key path) s.dirs;
  }

  unfoldable pub invalidate_all : FileCache c → FileCache c
  invalidate_all s = record {
    content = c.content.invalidate_all s.content;
    attrs = c.attrs.invalidate_all s.attrs;
    dirs = c.dirs.invalidate_all s.dirs;
  }

  -- Nothing but the root is a prefix that is invalidated.
  unfoldable pub invalidate_prefix : Name → FileCache c → FileCache c
  unfolding invalidate_all normalize_key lex
  invalidate_prefix prefix s = if normalize_key prefix == root then invalidate_all s else s
