-- ===== src/Fuse/Untouched.antt =====
-- What a handler leaves of a file system that is mounted read-only: the steps that the handlers share.
use jax_fs.Prelude.{ℕ, ◌≡◌, refl, ◌∙◌, Bool, true, false, Option, none, some}
use jax_fs.Prelude.Results.{Result, ok, err}
use jax_fs.Ord.{u64_ord}
use jax_fs.Ord.Lex.{lex_ord}
use jax_fs.FilePath.{Name}
use jax_fs.Mount.Act.{after, fail_if}
use jax_fs.Fuse.Volume.{Volume}
use jax_fs.Fuse.Cache.{Caches, CachedAttr, FileCache}
use jax_fs.Fuse.State.{JaxFs, Errno, Handler, path_of, inode_of}
use jax_fs.Fuse.Fetch.{fetch_attr, fetch_dir, fetch_content, or_fetch}
use jax_fs.Fuse.Attributes.{OsStr, to_str, found}
use jax_fs.Fuse.Change.{writable_entry}

module _ (m : Volume) (c : Caches) where
  pub record Untouched (s t : JaxFs m c) : Type 0 where
    pub mount_kept : t.mount ≡ s.mount
    pub save_kept : t.save_tx ≡ s.save_tx
    pub read_only : t.read_only ≡ true

  -- A handler that leaves a read-only file system as it is.
  abbrev pub IsSafe : {A : Type 0} → Handler m c A → Type 0
  IsSafe h = (s : JaxFs m c) → s.read_only ≡ true → Untouched s (h s).0

  pub same : (s : JaxFs m c) → s.read_only ≡ true → Untouched s s
  same s r = record { mount_kept = refl; save_kept = refl; read_only = r }

  pub chain : (s t u : JaxFs m c) → Untouched s t → Untouched t u → Untouched s u
  chain s t u a b = record {
    mount_kept = b.mount_kept ∙ a.mount_kept;
    save_kept = b.save_kept ∙ a.save_kept;
    read_only = b.read_only;
  }

  pub after-Untouched :
      {A B : Type 0} (s : JaxFs m c) (x : JaxFs m c × Result Errno A) (f : A → Handler m c B)
      → Untouched s x.0
      → ((a : A) → IsSafe (f a))
      → Untouched s (after x f).0
  after-Untouched s (t, ok a) f u g = chain s t (f a t).0 u (g a t u.read_only)
  after-Untouched s (t, err e) f u g = u

  pub bind-Untouched :
      {A B : Type 0} (h : Handler m c A) (f : A → Handler m c B)
      → IsSafe h
      → ((a : A) → IsSafe (f a))
      → IsSafe (λ s. after (h s) f)
  bind-Untouched h f safe g s r = after-Untouched s (h s) f (safe s r) g

  -- What changes the tree, and a write to a buffer, is refused.
  pub refused :
      {A : Type 0} (b : Bool) (f : Unit {0} → Handler m c A) (s : JaxFs m c)
      → b ≡ true
      → after (fail_if b Errno.erofs s) f ≡ (s, err Errno.erofs)
  refused true f s h = refl
  refused false f s h = cc

  pub writable_refused :
      (parent : ℕ) (name : OsStr) (s : JaxFs m c)
      → s.read_only ≡ true
      → writable_entry m c parent name s ≡ (s, err Errno.erofs)
  unfolding writable_entry
  writable_refused parent name s r = refused s.read_only _ s r

  pub fail_if-Untouched : (b : Bool) (e : Errno) → IsSafe (fail_if b e)
  fail_if-Untouched true e s r = same s r
  fail_if-Untouched false e s r = same s r

  pub or_fetch-Untouched :
      {A : Type 0} (cached : Option A) (put : A → FileCache c → FileCache c) (fetched : Option A)
      → IsSafe (or_fetch m c cached put fetched)
  or_fetch-Untouched (some a) put fetched s r = same s r
  or_fetch-Untouched none put none s r = same s r
  or_fetch-Untouched none put (some a) s r = record {
    mount_kept = refl;
    save_kept = refl;
    read_only = r;
  }

  pub fetch_attr-Untouched : (now : ℕ) (path : Name) → IsSafe (fetch_attr m c now path)
  unfolding fetch_attr
  fetch_attr-Untouched now path s r = or_fetch-Untouched _ _ _ s r

  pub fetch_dir-Untouched : (path : Name) → IsSafe (fetch_dir m c path)
  unfolding fetch_dir
  fetch_dir-Untouched path s r = or_fetch-Untouched _ _ _ s r

  pub fetch_content-Untouched : (path : Name) → IsSafe (fetch_content m c path)
  unfolding fetch_content
  fetch_content-Untouched path s r = or_fetch-Untouched _ _ _ s r

  pub path_of-Untouched : (ino : ℕ) → IsSafe (path_of m c ino)
  unfolding path_of
  path_of-Untouched ino s r = same s r

  pub inode_of-Untouched : (path : Name) → IsSafe (inode_of m c path)
  unfolding inode_of
  inode_of-Untouched path s r = record { mount_kept = refl; save_kept = refl; read_only = r }

  pub to_str-Untouched : (name : OsStr) (e : Errno) → IsSafe (to_str m c name e)
  to_str-Untouched none e s r = same s r
  to_str-Untouched (some n) e s r = same s r

  pub found-Untouched : (path : Name) (attr : Option CachedAttr) → IsSafe (found m c path attr)
  found-Untouched path none s r = same s r
  found-Untouched path (some a) s r =
      bind-Untouched (inode_of m c path) _ (inode_of-Untouched path) (λ i. same) s r
