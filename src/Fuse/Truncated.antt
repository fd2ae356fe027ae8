-- ===== src/Fuse/Truncated.antt =====
-- What a change of the size of a file leaves.
use jax_fs.Prelude.{
  ℕ, zero, suc, ◌+◌, ◌≡◌, refl, sym, ◌∙◌, ap, subst, arith, Option, none, some, [], map_option,
  unwrap_or,
}
use jax_fs.Prelude.Results.{ok, ok_or}
use jax_fs.Ord.{u64_ord}
use jax_fs.FilePath.{Name}
use jax_fs.InodeTable.Table.{get_path}
use jax_fs.Mount.Act.{after, after-eq-ok, fail_if-eq-ok, give, ◌>>=◌, ◌>>◌}
use jax_fs.Fuse.Volume.{Volume, VolumeLaws}
use jax_fs.Fuse.Cache.{Caches, CachedAttr, FileCache}
use jax_fs.Fuse.Octet.{resize}
use jax_fs.Fuse.State.{JaxFs, Errno, FileAttr, Handler, make_attr, path_of, to_path, on_mount}
use jax_fs.Fuse.Fetch.{fetch_attr, or_fetch}
use jax_fs.Fuse.Attributes.{
  TimeOrNow, reply_attr, is_directory, buffer_of, truncated, truncate, handle_truncate, set_size,
  set_mtime, put_mtime, setattr,
}
use jax_fs.Fuse.Flushed.{on_mount-ok}

module _ (m : Volume) (c : Caches) where
  -- What only reads through the cache changes nothing but the cache.
  abbrev SameBut : JaxFs m c → JaxFs m c → Type 0
  SameBut s t = t ≡ record s { cache = t.cache }

  or_fetch-SameBut :
      {A : Type 0} (o : Option A) (put : A → FileCache c → FileCache c) (f : Option A)
      (s : JaxFs m c)
      → SameBut s (or_fetch m c o put f s).0
  or_fetch-SameBut (some a) put f s = refl
  or_fetch-SameBut none put none s = refl
  or_fetch-SameBut none put (some a) s = refl

  fetch_attr-SameBut :
      (now : ℕ) (path : Name) (s t : JaxFs m c) (o : Option CachedAttr)
      → fetch_attr m c now path s ≡ (t, ok o)
      → SameBut s t
  unfolding fetch_attr
  fetch_attr-SameBut now path s t o h =
      subst (SameBut s) (ap (λ x. x.0) h) (or_fetch-SameBut _ _ _ s)

  put_mtime-mount :
      (path : Name) (x : ℕ) (attr : Option CachedAttr) (s t : JaxFs m c)
      → put_mtime m c path x attr s ≡ (t, ok tt)
      → t.mount ≡ s.mount
  put_mtime-mount path x none s t h = sym (ap (λ y. y.0.mount) h)
  put_mtime-mount path x (some attr) s t h = sym (ap (λ y. y.0.mount) h)

  set_mtime-mount :
      (now : ℕ) (path : Name) (mtime : Option TimeOrNow) (s t : JaxFs m c)
      → set_mtime m c now path mtime s ≡ (t, ok tt)
      → t.mount ≡ s.mount
  set_mtime-mount now path none s t h = sym (ap (λ y. y.0.mount) h)
  set_mtime-mount now path (some x) s t h =
      let (s1, attr, e, f) = after-eq-ok (fetch_attr m c now path s) _ h in
      put_mtime-mount path _ attr s1 t f
      ∙ ap (λ y. y.mount) (fetch_attr-SameBut now path s s1 attr e)

  truncate-cat :
      (laws : VolumeLaws m) (path : Name) (size : ℕ) (s s' : JaxFs m c)
      → truncate m c path size none s ≡ (s', ok tt)
      → (m.cat (to_path path) s'.mount ≡ some (truncated m c path size s.mount))
        × (s'.save_tx ≡ map_option (λ n. n + 1) s.save_tx)
  unfolding truncate
  truncate-cat laws path size s s' h =
      let (s1, u, e1, f1) =
        after-eq-ok (on_mount m c (m.add (to_path path) (truncated m c path size s.mount)) s) _ h in
      let (added, same) =
        on_mount-ok m c (m.add (to_path path) (truncated m c path size s.mount)) s s1 e1 in
      let there =
        laws.cat-add (to_path path) (truncated m c path size s.mount) s.mount s1.mount added in
      (
        ap (λ x. m.cat (to_path path) x.0.mount) (sym f1) ∙ there,
        sym (ap (λ x. x.0.save_tx) f1) ∙ ap (λ x. map_option (λ n. n + 1) x.save_tx) same,
      )

  buffer_of-cache :
      (fh : Option ℕ) (s : JaxFs m c) (cache : FileCache c)
      → buffer_of m c fh (record s { cache = cache }) ≡ buffer_of m c fh s
  unfolding buffer_of
  buffer_of-cache none s cache = refl
  buffer_of-cache (some fh) s cache = refl

  truncated-resize :
      (path : Name) (size : ℕ) (t : m.Tree)
      → truncated m c path size t ≡ resize size (unwrap_or (m.cat (to_path path) t) [])
  unfolding truncated
  truncated-resize path zero t = refl
  truncated-resize path (suc size) t = refl

  reply_attr-ino :
      (ino : ℕ) (o : Option CachedAttr) (attr : FileAttr)
      → reply_attr m c ino o ≡ ok attr
      → attr.ino ≡ ino
  unfolding make_attr
  reply_attr-ino ino none attr h = cc
  reply_attr-ino ino (some a) attr h = ground (arith, h)

  -- What follows in `setattr` once the path is known.
  abbrev rest : ℕ → ℕ → ℕ → Option TimeOrNow → Option ℕ → Name → Handler m c FileAttr
  rest now ino size mtime fh path = do
    set_size m c now path (some size) fh
    set_mtime m c now path mtime
    attr ← fetch_attr m c now path
    give (reply_attr m c ino attr)

  set_size-cat :
      (laws : VolumeLaws m) (now : ℕ) (path : Name) (size : ℕ) (fh : Option ℕ) (s s' : JaxFs m c)
      → buffer_of m c fh s ≡ none
      → set_size m c now path (some size) fh s ≡ (s', ok tt)
      → (m.cat (to_path path) s'.mount ≡ some (truncated m c path size s.mount))
        × (s'.save_tx ≡ map_option (λ n. n + 1) s.save_tx)
  unfolding handle_truncate
  set_size-cat laws now path size fh s s' b h =
      let (r, f1) = fail_if-eq-ok s.read_only Errno.erofs s _ h in
      let (s2, attr, e2, f2) = after-eq-ok (fetch_attr m c now path s) _ f1 in
      let (d, f3) = fail_if-eq-ok (is_directory m c attr) Errno.eisdir s2 _ f2 in
      let same = fetch_attr-SameBut now path s s2 attr e2 in
      let b2 : buffer_of m c fh s2 ≡ none =
        ap (buffer_of m c fh) same ∙ buffer_of-cache fh s s2.cache ∙ b in
      let f4 : truncate m c path size none s2 ≡ (s', ok tt) =
        ap (λ o. truncate m c path size o s2) (sym b2) ∙ f3 in
      let (there, asked) = truncate-cat laws path size s2 s' f4 in
      (
        there ∙ ap (λ x. some (truncated m c path size x.mount)) same,
        asked ∙ ap (λ x. map_option (λ n. n + 1) x.save_tx) same,
      )

  -- Over a mount that keeps the laws of `Volume`: when a change of the size of a file succeeds, and
  -- no buffer is open under the handle that it may name, the file then holds what it held, cut off
  -- at the size or filled up to it with zeros, a file that cannot be read counting as empty; the
  -- attributes answered are of the number that was asked for.
  pub cat-setattr :
      (laws : VolumeLaws m) (now ino size : ℕ) (path : Name) (mtime : Option TimeOrNow)
      (fh : Option ℕ) (attr : FileAttr) (s s' : JaxFs m c)
      → get_path ino s.inodes ≡ some path
      → buffer_of m c fh s ≡ none
      → setattr m c now ino (some size) mtime fh s ≡ (s', ok attr)
      → (m.cat (to_path path) s'.mount
          ≡ some (resize size (unwrap_or (m.cat (to_path path) s.mount) [])))
        × (attr.ino ≡ ino)
  unfolding setattr path_of make_attr
  cat-setattr laws now ino size path mtime fh attr s s' p b h =
      let h' =
        subst (λ o. after (s, ok_or o Errno.enoent) (rest now ino size mtime fh) ≡ (s', ok attr)) p
          h in
      let (s1, u, e1, f1) = after-eq-ok (set_size m c now path (some size) fh s) _ h' in
      let (s2, w, e2, f2) = after-eq-ok (set_mtime m c now path mtime s1) _ f1 in
      let (s3, a, e3, f3) = after-eq-ok (fetch_attr m c now path s2) _ f2 in
      let (there, asked) = set_size-cat laws now path size fh s s1 b e1 in
      let kept : s'.mount ≡ s1.mount =
        sym (ap (λ x. x.0.mount) f3)
        ∙ ap (λ x. x.mount) (fetch_attr-SameBut now path s2 s3 a e3)
        ∙ set_mtime-mount now path mtime s1 s2 e2 in
      (
        ap (m.cat (to_path path)) kept ∙ there ∙ ap some (truncated-resize path size s.mount),
        reply_attr-ino ino a attr (ap (λ x. x.1) f3),
      )
