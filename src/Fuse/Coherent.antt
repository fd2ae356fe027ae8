-- ===== src/Fuse/Coherent.antt =====
-- The cached contents of files are those of the mount: what keeps it so, and what a read then
-- gives.
use jax_fs.Prelude.{
  ℕ, ◌≡◌, ◌≢◌, refl, sym, ◌∙◌, ap, subst, arith, true, Option, none, some, List, map_option,
  Bool-cases, inl, inr,
}
use jax_fs.Prelude.Results.{Result, ok, err}
use jax_fs.Ord.{u64_ord, ◌==◌, eq_of_==, ==_refl}
use jax_fs.Ord.Lex.{lex_ord}
use jax_fs.BTreeMap.{get}
use jax_fs.FilePath.{Name}
use jax_fs.InodeTable.Paths.{normalize_path}
use jax_fs.InodeTable.Table.{get_path}
use jax_fs.Mount.Act.{after, give}
use jax_fs.Fuse.Volume.{Volume}
use jax_fs.Fuse.Cache.{Caches, MokaLaws, CachedContent, get_content, put_content, normalize_key}
use jax_fs.Fuse.State.{JaxFs, Errno, path_of, to_path}
use jax_fs.Fuse.Fetch.{fetch_content, content_of, or_fetch}
use jax_fs.Fuse.Content.{read, read_through, read_at, bytes_of}

module _ (m : Volume) (c : Caches) where
  -- Whatever is cached under a path is what the mount has there.
  unfoldable pub IsCoherent : JaxFs m c → Type 0
  IsCoherent s =
      (k : Name) (v : CachedContent)
      → c.content.get k s.cache.content ≡ some v
      → m.cat (to_path k) s.mount ≡ some v.data_bytes

  module _ (cached : MokaLaws c.content) where
    -- A content that the mount has, put into the cache.
    put-IsCoherent :
        (k : Name) (v : CachedContent) (s : JaxFs m c)
        → m.cat (to_path k) s.mount ≡ some v.data_bytes
        → IsCoherent s
        → IsCoherent
            (record s { cache = record s.cache { content = c.content.insert k v s.cache.content } })
    unfolding IsCoherent
    put-IsCoherent k v s here coherent j w e = elim (Bool-cases (j == k)) [
      | inl t ↦
          let same : j ≡ k = eq_of_== j k t in
          elim (cached.get-insert k v s.cache.content) [
            | inl n ↦ absurd (ground (arith, n, e, same))
            | inr y ↦
                let y' : c.content.get j (c.content.insert k v s.cache.content) ≡ some v =
                  rw same y in
                ground (arith, y', e, here, same)
          ]
      | inr f ↦
          let other : j ≢ k =
            λ q. let t : (j == k) ≡ true = rw q (==_refl k) in ground (arith, f, t) in
          elim (cached.get-insert_other k j v s.cache.content other) [
            | inl n ↦ absurd (ground (arith, n, e))
            | inr y ↦ coherent j w (sym y ∙ e)
          ]
    ]

    -- What a fetch of the content under a key comes to.
    abbrev fetched :
        Name
        → Option CachedContent
        → Option (List ℕ)
        → JaxFs m c
        → JaxFs m c × Result Errno (Option CachedContent)
    fetched k o bytes s =
        or_fetch m c o (λ v t. record t { content = c.content.insert k v t.content })
          (map_option (content_of m c) bytes) s

    fetch_content-eq :
        (path : Name) (s : JaxFs m c)
        → normalize_path path ≡ path
        → fetch_content m c path s
          ≡ fetched path (c.content.get path s.cache.content) (m.cat (to_path path) s.mount) s
    unfolding fetch_content get_content put_content normalize_key
    fetch_content-eq path s n =
        ap (λ k. fetched k (c.content.get k s.cache.content) (m.cat (to_path path) s.mount) s) n

    pub record Fetched (path : Name) (s : JaxFs m c)
        (x : JaxFs m c × Result Errno (Option CachedContent)) : Type 0 where
      pub coherent : IsCoherent x.0
      pub mount_kept : x.0.mount ≡ s.mount
      pub value : Option CachedContent
      pub answer : x.1 ≡ ok value
      pub is_current : map_option (λ v. v.data_bytes) value ≡ m.cat (to_path path) s.mount

    fetched-Fetched :
        (path : Name) (o : Option CachedContent) (bytes : Option (List ℕ)) (s : JaxFs m c)
        → IsCoherent s
        → c.content.get path s.cache.content ≡ o
        → m.cat (to_path path) s.mount ≡ bytes
        → Fetched path s (fetched path o bytes s)
    fetched-Fetched path (some v) bytes s k e g = record {
      coherent = k;
      mount_kept = refl;
      value = some v;
      answer = refl;
      is_current = unfold IsCoherent in sym (k path v e);
    }
    fetched-Fetched path none none s k e g = record {
      coherent = k;
      mount_kept = refl;
      value = none;
      answer = refl;
      is_current = sym g;
    }
    fetched-Fetched path none (some bytes) s k e g = record {
      coherent = put-IsCoherent path (content_of m c bytes) s g k;
      mount_kept = refl;
      value = some (content_of m c bytes);
      answer = refl;
      is_current = sym g;
    }

    fetch_content-Fetched :
        (path : Name) (s : JaxFs m c)
        → normalize_path path ≡ path
        → IsCoherent s
        → Fetched path s (fetch_content m c path s)
    fetch_content-Fetched path s n k = subst (Fetched path s) (sym (fetch_content-eq path s n)) (
        fetched-Fetched path (c.content.get path s.cache.content) (m.cat (to_path path) s.mount) s k
          refl refl)

    -- What the bytes of a file answer to a read.
    abbrev pub direct_read : Option (List ℕ) → ℕ → ℕ → Result Errno (List ℕ)
    direct_read none offset size = err Errno.eio
    direct_read (some bytes) offset size = ok (read_at offset size bytes)

    bytes_of-eq :
        (o : Option CachedContent) (offset size : ℕ)
        → bytes_of m c o offset size ≡ direct_read (map_option (λ v. v.data_bytes) o) offset size
    bytes_of-eq none offset size = refl
    bytes_of-eq (some v) offset size = refl

    answered :
        (path : Name) (offset size : ℕ) (s : JaxFs m c)
        (x : JaxFs m c × Result Errno (Option CachedContent))
        → Fetched path s x
        → ((after x (λ o. give (bytes_of m c o offset size))).1
            ≡ direct_read (m.cat (to_path path) s.mount) offset size)
          × IsCoherent (after x (λ o. give (bytes_of m c o offset size))).0
          × ((after x (λ o. give (bytes_of m c o offset size))).0.mount ≡ s.mount)
    answered path offset size s (t, err e) f = absurd (ground (arith, f.answer))
    answered path offset size s (t, ok o) f =
        let same : o ≡ f.value = ground (arith, f.answer) in
        (
          bytes_of-eq o offset size
              ∙ ap (λ x. direct_read (map_option (λ v. v.data_bytes) x) offset size) same
              ∙ ap (λ x. direct_read x offset size) f.is_current,
          f.coherent,
          f.mount_kept,
        )

    read_unbuffered :
        (path : Name) (ino fh offset size : ℕ) (s : JaxFs m c)
        → get fh s.write_buffers ≡ none
        → get_path ino s.inodes ≡ some path
        → read m c ino fh offset size s
          ≡ after (fetch_content m c path s) (λ o. give (bytes_of m c o offset size))
    unfolding read read_through path_of
    read_unbuffered path ino fh offset size s e p = rw (e, p) refl

    -- Over a cache that keeps the laws of moka: where the cached contents are those of the mount, a
    -- read through a handle without a buffer gives what the mount itself gives for the path of the
    -- file, an error included, and the cached contents are still those of the mount, which is as it
    -- was. The path is in the normal form of the cache.
    pub read-eq-direct_read :
        (path : Name) (ino fh offset size : ℕ) (s : JaxFs m c)
        → normalize_path path ≡ path
        → IsCoherent s
        → get fh s.write_buffers ≡ none
        → get_path ino s.inodes ≡ some path
        → ((read m c ino fh offset size s).1
            ≡ direct_read (m.cat (to_path path) s.mount) offset size)
          × IsCoherent (read m c ino fh offset size s).0
          × ((read m c ino fh offset size s).0.mount ≡ s.mount)
    read-eq-direct_read path ino fh offset size s n k e p =
        subst
          (λ y.
            (y.1 ≡ direct_read (m.cat (to_path path) s.mount) offset size)
            × IsCoherent y.0
            × (y.0.mount ≡ s.mount))
          (sym (read_unbuffered path ino fh offset size s e p))
          (answered path offset size s (fetch_content m c path s)
            (fetch_content-Fetched path s n k))
