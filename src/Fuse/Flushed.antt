-- ===== src/Fuse/Flushed.antt =====
-- What a flush hands to the mount, and what is read from the mount afterwards.
use jax_fs.Prelude.{
  ℕ, ◌+◌, ◌≡◌, refl, sym, ◌∙◌, ap, Bool, true, false, none, some, List, [], map_option, unwrap_or,
  if◌then◌else◌,
}
use jax_fs.Prelude.Results.{Result, ok, err}
use jax_fs.Ord.{u64_ord}
use jax_fs.Ord.Lex.{lex_ord}
use jax_fs.BTreeMap.{get, insert, get-insert_self}
use jax_fs.FilePath.{Name, FilePath}
use jax_fs.InodeTable.Table.{get_path}
use jax_fs.Mount.Act.{after-eq-ok}
use jax_fs.Mount.Seek.{apart}
use jax_fs.Fuse.Volume.{Volume, VolumeLaws}
use jax_fs.Fuse.Cache.{Caches, MokaLaws, get_content, invalidate}
use jax_fs.Fuse.State.{
  JaxFs, WriteBuffer, Errno, path_of, to_path, on_mount, on_cache, request_save,
}
use jax_fs.Fuse.Fetch.{fetch_content}
use jax_fs.Fuse.Content.{
  mark_clean, flush_content, flush_path, flush, write, read, read_through, read_at, write_at,
  no_buffer,
}
use jax_fs.Fuse.Written.{write-ok, content_before, buffer-write}

module _ (m : Volume) (c : Caches) where
  -- A change of the mount that succeeds changes nothing else of the file system.
  pub on_mount-ok :
      (f : m.Tree → m.Tree × Bool) (s s' : JaxFs m c)
      → on_mount m c f s ≡ (s', ok tt)
      → (f s.mount ≡ (s'.mount, true)) × (s' ≡ record s { mount = s'.mount })
  unfolding on_mount
  on_mount-ok f s s' h = go (f s.mount) h
    where
      go :
          (x : m.Tree × Bool)
          → ◌≡◌ {A = JaxFs m c × Result Errno (Unit {0})}
              (record s { mount = x.0 }, if x.1 then ok tt else err Errno.eio)
              (s', ok tt)
          → (x ≡ (s'.mount, true)) × (s' ≡ record s { mount = s'.mount })
      go (t, true) h = (
        ap (λ y. (y.0.mount, true)) h,
        sym (ap (λ y. y.0) h) ∙ ap (λ y. record s { mount = y.0.mount }) h,
      )
      go (t, false) h = cc

  -- A flush of a dirty buffer that succeeds.
  pub record Flushed (path : Name) (fh : ℕ) (b : WriteBuffer) (s s' : JaxFs m c) : Type 0 where
    pub added : m.add (to_path path) b.content s.mount ≡ (s'.mount, true)
    pub cleaned : get fh s'.write_buffers ≡ some (record b { dirty = false })
    pub asked : s'.save_tx ≡ map_option (λ n. n + 1) s.save_tx
    pub dropped : s'.cache ≡ invalidate c path s.cache
    pub inodes_kept : s'.inodes ≡ s.inodes

  abbrev flushed : Name → ℕ → WriteBuffer → m.Tree → JaxFs m c → JaxFs m c
  flushed path fh b t s = record s {
    mount = t;
    write_buffers = insert fh (record b { dirty = false }) s.write_buffers;
    cache = invalidate c path s.cache;
    save_tx = map_option (λ n. n + 1) s.save_tx;
  }

  flush_content-Flushed :
      (path : Name) (fh : ℕ) (b : WriteBuffer) (s s' : JaxFs m c)
      → get fh s.write_buffers ≡ some b
      → flush_content m c fh path (some b.content) s ≡ (s', ok tt)
      → Flushed path fh b s s'
  unfolding flush_content mark_clean
  flush_content-Flushed path fh b s s' e h =
      let (s1, u, e1, f1) = after-eq-ok (on_mount m c (m.add (to_path path) b.content) s) _ h in
      let (added, same) = on_mount-ok (m.add (to_path path) b.content) s s1 e1 in
      let eq : s' ≡ flushed path fh b s1.mount s =
        sym (ap (λ x. x.0) f1)
        ∙ ap (λ x. request_save m c (on_cache m c (invalidate c path) (mark_clean m c fh x))) same
        ∙ rw e refl in
      record {
        added = added ∙ ap (λ t. (t, true)) (sym (ap (λ x. x.mount) eq));
        cleaned =
            ap (λ x. get fh x.write_buffers) eq
            ∙ get-insert_self fh (record b { dirty = false }) s.write_buffers;
        asked = ap (λ x. x.save_tx) eq;
        dropped = ap (λ x. x.cache) eq;
        inodes_kept = ap (λ x. x.inodes) eq;
      }

  flush-eq :
      (path : Name) (ino fh : ℕ) (b : WriteBuffer) (s : JaxFs m c)
      → s.read_only ≡ false
      → get_path ino s.inodes ≡ some path
      → get fh s.write_buffers ≡ some b
      → b.dirty ≡ true
      → flush m c ino fh s ≡ flush_content m c fh path (some b.content) s
  unfolding flush flush_path path_of
  flush-eq path ino fh b s r p e d = rw (r, p, e, d) refl

  pub flush-Flushed :
      (path : Name) (ino fh : ℕ) (b : WriteBuffer) (s s' : JaxFs m c)
      → s.read_only ≡ false
      → get_path ino s.inodes ≡ some path
      → get fh s.write_buffers ≡ some b
      → b.dirty ≡ true
      → flush m c ino fh s ≡ (s', ok tt)
      → Flushed path fh b s s'
  flush-Flushed path ino fh b s s' r p e d h =
      flush_content-Flushed path fh b s s' e (sym (flush-eq path ino fh b s r p e d) ∙ h)

  -- A read through a handle without a buffer, of a file whose content is not cached.
  read_uncached :
      (path : Name) (ino fh offset size : ℕ) (bytes : List ℕ) (s : JaxFs m c)
      → get_path ino s.inodes ≡ some path
      → get fh s.write_buffers ≡ none
      → get_content c path s.cache ≡ none
      → m.cat (to_path path) s.mount ≡ some bytes
      → (read m c ino fh offset size s).1 ≡ ok (read_at offset size bytes)
  unfolding read read_through path_of fetch_content
  read_uncached path ino fh offset size bytes s p e g h = rw (e, p, g, h) refl

  -- Over a mount that keeps the laws of `Volume` and a cache that keeps those of moka, mounted for
  -- writing: a flush of a dirty buffer that succeeds puts exactly the content of the buffer into
  -- the file, requests a save where there is a channel for it, leaves the buffer clean, and keeps
  -- every file whose path is apart. A read at any offset through a handle without a buffer then
  -- gives those bytes of the content, whatever the cache held.
  pub read-flush :
      (laws : VolumeLaws m) (cached : MokaLaws c.content) (path : Name) (ino fh fh' offset size : ℕ)
      (b : WriteBuffer) (s s' : JaxFs m c)
      → s.read_only ≡ false
      → get_path ino s.inodes ≡ some path
      → get fh s.write_buffers ≡ some b
      → b.dirty ≡ true
      → flush m c ino fh s ≡ (s', ok tt)
      → get fh' s'.write_buffers ≡ none
      → (m.cat (to_path path) s'.mount ≡ some b.content)
        × (s'.save_tx ≡ map_option (λ n. n + 1) s.save_tx)
        × (get fh s'.write_buffers ≡ some (record b { dirty = false }))
        × ((q : FilePath) (bytes : List ℕ)
            → apart (to_path path) q ≡ true
            → m.cat q s.mount ≡ some bytes
            → m.cat q s'.mount ≡ some bytes)
        × ((read m c ino fh' offset size s').1 ≡ ok (read_at offset size b.content))
  unfolding get_content invalidate
  read-flush laws cached path ino fh fh' offset size b s s' r p e d h e' =
      let f = flush-Flushed path ino fh b s s' r p e d h in
      let there = laws.cat-add (to_path path) b.content s.mount s'.mount f.added in
      let gone : get_content c path s'.cache ≡ none =
        rw f.dropped (cached.get-invalidate _ s.cache.content) in
      let p' = ap (get_path ino) f.inodes_kept ∙ p in
      (
        there,
        f.asked,
        f.cleaned,
        λ q bytes a k.
            laws.cat-add-apart (to_path path) q b.content bytes s.mount s'.mount f.added a k,
        read_uncached path ino fh' offset size b.content s' p' e' gone there,
      )

  -- Over a mount that keeps the laws of `Volume`: a write through a handle that has no buffer yet,
  -- and the flush of it for the number of the file. When both succeed, the file holds what was
  -- written after as many zeros as the offset says, and nothing else of what it held before.
  pub flush-write_fresh :
      (laws : VolumeLaws m) (path : Name) (ino fh offset n : ℕ) (bytes : List ℕ)
      (s s1 s2 : JaxFs m c)
      → get_path ino s.inodes ≡ some path
      → get fh s.write_buffers ≡ none
      → write m c fh offset bytes s ≡ (s1, ok n)
      → flush m c ino fh s1 ≡ (s2, ok tt)
      → m.cat (to_path path) s2.mount ≡ some (write_at offset bytes [])
  flush-write_fresh laws path ino fh offset n bytes s s1 s2 p e w h =
      let (r, k, eq) = write-ok m c fh offset n bytes s s1 w in
      let b = buffer-write m c fh offset n bytes s s1 w in
      let fresh : content_before m c fh s ≡ [] = ap (λ o. (unwrap_or o no_buffer).content) e in
      let r1 : s1.read_only ≡ false = ap (λ x. x.read_only) eq ∙ r in
      let p1 = ap (λ x. get_path ino x.inodes) eq ∙ p in
      let f = flush-Flushed path ino fh _ s1 s2 r1 p1 b refl h in
      laws.cat-add (to_path path) (write_at offset bytes (content_before m c fh s)) s1.mount
        s2.mount f.added
      ∙ ap (λ x. some (write_at offset bytes x)) fresh
