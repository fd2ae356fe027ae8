-- ===== src/Fuse/ReadOnly.antt =====
-- A file system that is mounted read-only changes nothing of the bucket.
use jax_fs.Prelude.{
  ℕ, ◌≡◌, refl, sym, subst, Bool, true, Option, none, some, List, ◌&&◌, is_none, Bool-cases, inl,
  inr,
}
use jax_fs.Prelude.Results.{Result}
use jax_fs.Ord.{u64_ord, ◌==◌}
use jax_fs.Ord.Lex.{lex_ord}
use jax_fs.FilePath.{Name}
use jax_fs.Mount.Act.{after, fail_if, gets, ◌>>◌}
use jax_fs.Fuse.Volume.{Volume}
use jax_fs.Fuse.Cache.{Caches}
use jax_fs.Fuse.State.{JaxFs, Errno, Handler, SyncEvent, on_sync_event, path_of, next_handle}
use jax_fs.Fuse.Fetch.{fetch_attr, fetch_content}
use jax_fs.Fuse.Content.{
  read, read_through, or_through, open_file, write, flush, release, wants_write,
}
use jax_fs.Fuse.Attributes.{OsStr}
use jax_fs.Fuse.Change.{create, mkdir, unlink, rmdir, rename, writable_entry}
use jax_fs.Fuse.Calls.{Call, serve, Reaches}
use jax_fs.Fuse.Untouched.{
  Untouched, same, chain, bind-Untouched, refused, writable_refused, fail_if-Untouched,
  fetch_attr-Untouched, fetch_content-Untouched, path_of-Untouched, IsSafe,
}
use jax_fs.Fuse.Looking.{lookup-Untouched, getattr-Untouched, setattr-Untouched, readdir-Untouched}

module _ (m : Volume) (c : Caches) where
  or_through-Untouched :
      (bytes : Option (List ℕ)) (through : Handler m c (List ℕ))
      → IsSafe m c through
      → IsSafe m c (or_through m c bytes through)
  or_through-Untouched none through safe = safe
  or_through-Untouched (some bytes) through safe = same m c

  read-Untouched : (ino fh offset size : ℕ) → IsSafe m c (read m c ino fh offset size)
  unfolding read read_through
  read-Untouched ino fh offset size s r =
      or_through-Untouched _ _
        (bind-Untouched m c (path_of m c ino) _ (path_of-Untouched m c ino) λ path.
          bind-Untouched m c (fetch_content m c path) _ (fetch_content-Untouched m c path)
            (λ content. same m c))
        s r

  open-Untouched : (now ino flags : ℕ) → IsSafe m c (open_file m c now ino flags)
  unfolding open_file next_handle
  open-Untouched now ino flags =
      bind-Untouched m c (path_of m c ino) _ (path_of-Untouched m c ino) λ path.
        bind-Untouched m c (fetch_attr m c now path) _ (fetch_attr-Untouched m c now path) λ attr.
          bind-Untouched m c (fail_if (is_none attr) Errno.enoent) _
            (fail_if-Untouched m c (is_none attr) Errno.enoent)
            λ u.
              bind-Untouched m c {B = ℕ} (gets (λ s. s.read_only))
                (λ read_only. after_gets read_only) (same m c)
                λ read_only.
                  bind-Untouched m c (fail_if (read_only && wants_write flags) Errno.erofs) _
                    (fail_if-Untouched m c (read_only && wants_write flags) Errno.erofs)
                    λ w s r. record { mount_kept = refl; save_kept = refl; read_only = r }
    where
      after_gets : Bool → Handler m c ℕ
      after_gets read_only = do
        fail_if (read_only && wants_write flags) Errno.erofs
        next_handle m c

  ap_Untouched :
      {A : Type 0} (s : JaxFs m c) (x : JaxFs m c × Result Errno A) {y : JaxFs m c × Result Errno A}
      → x ≡ y
      → Untouched m c s y.0
      → Untouched m c s x.0
  ap_Untouched s x e u = subst (λ z. Untouched m c s z.0) (sym e) u

  write-Untouched : (fh offset : ℕ) (bytes : List ℕ) → IsSafe m c (write m c fh offset bytes)
  unfolding write
  write-Untouched fh offset bytes s r =
      ap_Untouched s _ (refused m c s.read_only _ s r) (same m c s r)

  entry-Untouched :
      {A : Type 0} (parent : ℕ) (name : OsStr) (f : Name × Name → Handler m c A)
      → IsSafe m c (λ s. after (writable_entry m c parent name s) f)
  entry-Untouched parent name f s r = rw (writable_refused m c parent name s r) (same m c s r)

  serve-Untouched :
      (now : ℕ) (q : Call) (s : JaxFs m c)
      → s.read_only ≡ true
      → Untouched m c s (serve m c now q s)
  unfolding serve flush release create mkdir unlink rmdir rename
  serve-Untouched now (Call.lookup_call parent name) s r = lookup-Untouched m c now parent name s r
  serve-Untouched now (Call.getattr_call ino) s r = getattr-Untouched m c now ino s r
  serve-Untouched now (Call.setattr_call ino size mtime fh) s r =
      setattr-Untouched m c now ino size mtime fh s r
  serve-Untouched now (Call.readdir_call is_full ino offset) s r =
      readdir-Untouched m c is_full ino offset s r
  serve-Untouched now (Call.read_call ino fh offset size) s r =
      read-Untouched ino fh offset size s r
  serve-Untouched now (Call.open_call ino flags) s r = open-Untouched now ino flags s r
  serve-Untouched now (Call.write_call fh offset bytes) s r = write-Untouched fh offset bytes s r
  serve-Untouched now (Call.flush_call ino fh) s r = rw r (same m c _ refl)
  serve-Untouched now (Call.release_call fh) s r = record {
    mount_kept = refl;
    save_kept = refl;
    read_only = r;
  }
  serve-Untouched now (Call.create_call parent name) s r = entry-Untouched parent name _ s r
  serve-Untouched now (Call.mkdir_call parent name) s r = entry-Untouched parent name _ s r
  serve-Untouched now (Call.unlink_call parent name) s r = entry-Untouched parent name _ s r
  serve-Untouched now (Call.rmdir_call parent name) s r = entry-Untouched parent name _ s r
  serve-Untouched now (Call.rename_call parent name newparent newname) s r =
      ap_Untouched s _ (refused m c s.read_only _ s r) (same m c s r)

  event-Untouched :
      (e : SyncEvent m c) (s : JaxFs m c)
      → s.read_only ≡ true
      → Untouched m c s (on_sync_event m c e s)
  unfolding on_sync_event
  event-Untouched (SyncEvent.bucket_updated id) s r = record {
    mount_kept = refl;
    save_kept = refl;
    read_only = r;
  }
  event-Untouched (SyncEvent.lagged n) s r = record {
    mount_kept = refl;
    save_kept = refl;
    read_only = r;
  }
  event-Untouched (SyncEvent.mount_invalidated id) s r = elim (Bool-cases (id == s.mount_id)) [
    | inl t ↦ rw t (record { mount_kept = refl; save_kept = refl; read_only = r })
    | inr f ↦ rw f (same m c s r)
  ]

  Reaches-Untouched : (s t : JaxFs m c) → s.read_only ≡ true → Reaches m c s t → Untouched m c s t
  Reaches-Untouched s t r (Reaches.start) = same m c s r
  Reaches-Untouched s t r (Reaches.call {t = u} now q h) =
      let a = Reaches-Untouched s u r h in
      chain m c s u (serve m c now q u) a (serve-Untouched now q u a.read_only)
  Reaches-Untouched s t r (Reaches.hear {t = u} e h) =
      let a = Reaches-Untouched s u r h in
      chain m c s u (on_sync_event m c e u) a (event-Untouched e u a.read_only)

  -- However a file system is used that was mounted read-only, by calls of the kernel and events of
  -- the sync engine in any order, the mount below it stays the same, no save of it is requested, and
  -- the file system stays read-only.
  pub read_only_kept :
      (s t : JaxFs m c)
      → s.read_only ≡ true
      → Reaches m c s t
      → (t.mount ≡ s.mount) × (t.save_tx ≡ s.save_tx) × (t.read_only ≡ true)
  read_only_kept s t r h =
      let a = Reaches-Untouched s t r h in (a.mount_kept, a.save_kept, a.read_only)
