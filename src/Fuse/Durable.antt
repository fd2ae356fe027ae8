-- ===== src/Fuse/Durable.antt =====
-- crates/daemon/src/fuse/jax_fs.rs over crates/common/src/mount/mount_inner.rs: from a buffer
-- through a flush and a save to a mount that is loaded anew.
use jax_fs.Prelude.{ℕ, ◌≡◌, ◌∙◌, ap, Bool, true, false, Option, some, List}
use jax_fs.Prelude.Results.{ok}
use jax_fs.Ord.{Ord, u64_ord}
use jax_fs.Ord.Lex.{lex_ord}
use jax_fs.BTreeMap.{get}
use jax_fs.FilePath.{Name, FilePath}
use jax_fs.InodeTable.Table.{get_path}
use jax_fs.Manifest.Platform.{Platform}
use jax_fs.Manifest.Types.{PrincipalRole, Share, get_share}
use jax_fs.Mount.Vault.{Vault, StoreLaws, CodecLaws}
use jax_fs.Mount.Session.{MountInner, Session, cat}
use jax_fs.Mount.Seek.{apart}
use jax_fs.Mount.Save.{save, load}
use jax_fs.Mount.Durable.{cat-load}
use jax_fs.Fuse.Volume.{Octets, octets_of, octets_some, mount_volume, mount_volume-VolumeLaws}
use jax_fs.Fuse.Cache.{Caches}
use jax_fs.Fuse.State.{JaxFs, WriteBuffer, to_path}
use jax_fs.Fuse.Content.{flush}
use jax_fs.Fuse.Flushed.{flush-Flushed}

module _ (p : Platform) (v : Vault p) ⦃ko : Ord p.Key⦄ ⦃ho : Ord v.Hash⦄ (o : Octets p)
    (c : Caches) where
  -- What the handlers see of the files of a mount.
  abbrev pub content : FilePath → Session p v → Option (List ℕ)
  content path s = octets_of p v o (cat p v path s)

  content-kept :
      (q : FilePath) (bytes : List ℕ) (s t : Session p v)
      → ((b : p.Bytes) → cat p v q s ≡ ok b → cat p v q t ≡ ok b)
      → content q s ≡ some bytes
      → content q t ≡ some bytes
  content-kept q bytes s t kept h =
      let (b, was, same) = octets_some p v o (cat p v q s) bytes h in
      ap (octets_of p v o) (kept b was) ∙ ap some same

  -- Over a mount whose blobs, encryption, shares and codecs keep their laws, whose files are lists
  -- of bytes and whose manifest has an owner's share for the key of the mount, and through a file
  -- system mounted for writing: when a flush of a dirty buffer succeeds and then a `save` of the
  -- mount does, the link that `save` returns can be loaded with that key, and in the mount that is
  -- loaded the file holds exactly the bytes of the buffer, and every file at a path apart from it that could be
  -- read before the flush holds what it held.
  pub cat-load-flush :
      (sl : StoreLaws p v) (cl : CodecLaws p v) (path : Name) (ino fh : ℕ) (b : WriteBuffer)
      (publish : Bool) (s s' : JaxFs (mount_volume p v o) c) (saved : Session p v)
      (result : p.Link × p.Link × ℕ) (share : Share p)
      → s.read_only ≡ false
      → get_path ino s.inodes ≡ some path
      → get fh s.write_buffers ≡ some b
      → b.dirty ≡ true
      → flush (mount_volume p v o) c ino fh s ≡ (s', ok tt)
      → get_share p (p.public_key s'.mount.inner.secret_key) s'.mount.inner.manifest ≡ some share
      → share.principal.role ≡ PrincipalRole.owner
      → share.principal.identity ≡ p.public_key s'.mount.inner.secret_key
      → save p v publish s'.mount ≡ (saved, ok result)
      → (loaded : MountInner p v) × (load p v result.0 s'.mount.inner.secret_key saved.world.store
          ≡ ok loaded)
        × (content (to_path path) (record { inner = loaded; world = saved.world }) ≡ some b.content)
        × ((q : FilePath) (bytes : List ℕ)
            → apart (to_path path) q ≡ true
            → content q s.mount ≡ some bytes
            → content q (record { inner = loaded; world = saved.world }) ≡ some bytes)
  cat-load-flush sl cl path ino fh b publish s s' saved result share r e f d h found role identity
        k =
      let laws = mount_volume-VolumeLaws p v o sl cl in
      let flushed = flush-Flushed (mount_volume p v o) c path ino fh b s s' r e f d h in
      let there = laws.cat-add (to_path path) b.content s.mount s'.mount flushed.added in
      let (loaded, ok_load, kept) =
        cat-load p v sl cl publish s'.mount saved result share found role identity k in
      let after : Session p v = record { inner = loaded; world = saved.world } in
      (
        loaded,
        ok_load,
        content-kept (to_path path) b.content s'.mount after (kept (to_path path)) there,
        λ q bytes a was. content-kept q bytes s'.mount after (kept q) (
            laws.cat-add-apart (to_path path) q b.content bytes s.mount s'.mount flushed.added a
              was),
      )
