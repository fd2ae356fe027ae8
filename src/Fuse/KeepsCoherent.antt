-- ===== src/Fuse/KeepsCoherent.antt =====
-- Which handlers and events keep the cached contents those of the mount:
-- crates/daemon/src/fuse/jax_fs.rs, `flush` and `spawn_sync_listener`.
use jax_fs.Prelude.{
  ℕ, ◌≡◌, ◌≢◌, sym, ◌∙◌, ap, arith, Bool, true, false, none, some, if◌then◌else◌, inl, inr,
}
use jax_fs.Prelude.Results.{ok}
use jax_fs.Ord.{u64_ord, ◌==◌}
use jax_fs.Ord.Lex.{lex_ord}
use jax_fs.BTreeMap.{get}
use jax_fs.FilePath.{Name}
use jax_fs.InodeTable.Paths.{normalize_path}
use jax_fs.InodeTable.Table.{get_path}
use jax_fs.Mount.Seek.{apart}
use jax_fs.Fuse.Volume.{Volume, VolumeLaws}
use jax_fs.Fuse.Cache.{Caches, MokaLaws, CachedContent, invalidate, invalidate_all, normalize_key}
use jax_fs.Fuse.State.{JaxFs, to_path, on_cache, WriteBuffer, SyncEvent, on_sync_event}
use jax_fs.Fuse.Content.{flush}
use jax_fs.Fuse.Flushed.{flush-Flushed}
use jax_fs.Fuse.Coherent.{IsCoherent}

module _ (m : Volume) (c : Caches) (cached : MokaLaws c.content) where
  -- Over a mount that keeps the laws of `Volume` and a cache that keeps those of moka, mounted for
  -- writing: a flush of a dirty buffer that succeeds keeps the cached contents those of the mount,
  -- where the path of the file is in normal form and every other path that is cached is apart from it.
  pub flush-IsCoherent :
      (laws : VolumeLaws m) (path : Name) (ino fh : ℕ) (b : WriteBuffer) (s s' : JaxFs m c)
      → normalize_path path ≡ path
      → s.read_only ≡ false
      → get_path ino s.inodes ≡ some path
      → get fh s.write_buffers ≡ some b
      → b.dirty ≡ true
      → ((k : Name) (v : CachedContent)
          → k ≢ path
          → c.content.get k s.cache.content ≡ some v
          → apart (to_path path) (to_path k) ≡ true)
      → IsCoherent m c s
      → flush m c ino fh s ≡ (s', ok tt)
      → IsCoherent m c s'
  unfolding IsCoherent invalidate normalize_key
  flush-IsCoherent laws path ino fh b s s' n r p e d away k h j v g =
      let f = flush-Flushed m c path ino fh b s s' r p e d h in
      let g' : c.content.get j (c.content.invalidate (normalize_path path) s.cache.content)
          ≡ some v =
        ap (λ x. c.content.get j x.content) (sym f.dropped) ∙ g in
      let g2 : c.content.get j (c.content.invalidate path s.cache.content) ≡ some v =
        ap (λ x. c.content.get j (c.content.invalidate x s.cache.content)) (sym n) ∙ g' in
      let other : j ≢ path = λ q.
        let a : c.content.get j (c.content.invalidate path s.cache.content) ≡ none =
          rw q (cached.get-invalidate path s.cache.content) in
        absurd (ground (arith, a, g2)) in
      let was : c.content.get j s.cache.content ≡ some v =
        elim (cached.get-invalidate_other path j s.cache.content) [
          | inl z ↦ absurd (ground (arith, z, g2))
          | inr y ↦ sym y ∙ g2
        ] in
      laws.cat-add-apart (to_path path) (to_path j) b.content v.data_bytes s.mount s'.mount f.added
        (away j v other was) (k j v was)

  -- An event tells of this mount, unless it names another.
  abbrev pub concerns : SyncEvent m c → JaxFs m c → Bool
  concerns (SyncEvent.mount_invalidated id) s = id == s.mount_id
  concerns _ s = true

  none_cached :
      (k : Name) (v : CachedContent) (s : JaxFs m c)
      → c.content.get k (c.content.invalidate_all s.cache.content) ≢ some v
  none_cached k v s g = ground (arith, g, cached.get-invalidate_all k s.cache.content)

  -- After an event of the sync engine that is about this mount, the cached contents are those of
  -- the mount, whatever they were before.
  pub event-IsCoherent :
      (e : SyncEvent m c) (s : JaxFs m c)
      → concerns e s ≡ true
      → IsCoherent m c (on_sync_event m c e s)
  unfolding IsCoherent on_sync_event invalidate_all
  event-IsCoherent (SyncEvent.bucket_updated id) s h k v g = absurd (none_cached k v s g)
  event-IsCoherent (SyncEvent.lagged x) s h k v g = absurd (none_cached k v s g)
  event-IsCoherent (SyncEvent.mount_invalidated id) s h k v g =
      let g' : c.content.get k (c.content.invalidate_all s.cache.content) ≡ some v =
        ap (λ b. c.content.get k (if b then on_cache m c (invalidate_all c) s else s).cache.content)
          (sym h)
        ∙ g in
      absurd (none_cached k v s g')
