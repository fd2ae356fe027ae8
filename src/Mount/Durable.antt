-- ===== src/Mount/Durable.antt =====
-- crates/common/src/mount/mount_inner.rs: what `save` leaves of the contents of the files.
use jax_fs.Prelude.{ℕ, ◌≡◌, sym, subst, Bool, some, arith, inl, inr}
use jax_fs.Prelude.Results.{ok, Result-cases}
use jax_fs.Ord.{Ord}
use jax_fs.FilePath.{FilePath}
use jax_fs.PathOps.Log.{log_is_empty}
use jax_fs.Manifest.Platform.{Platform}
use jax_fs.Manifest.Types.{PrincipalRole, Share, get_share}
use jax_fs.Mount.Vault.{Vault, StoreLaws, CodecLaws}
use jax_fs.Mount.Session.{MountInner, Session, get_mount_link, cat}
use jax_fs.Mount.Grows.{Extends, Grows-eq, put_node-Grows}
use jax_fs.Mount.Seek.{seek-Extends}
use jax_fs.Mount.Kept.{get_of_at, at_of_get, read_data-Extends}
use jax_fs.Mount.Reads.{put_pins-Grows, store_ops_log-Grows, put_manifest-Grows}
use jax_fs.Mount.Shares.{reshare-Grows}
use jax_fs.Mount.Save.{save, load}
use jax_fs.Mount.Saved.{save-Steps, load-save}

module _ (p : Platform) (v : Vault p) where
  -- What could be read of a tree can be read of it over more blobs.
  pub cat-Extends :
      (q : FilePath) (b : p.Bytes) (s t : Session p v)
      → t.inner.entry ≡ s.inner.entry
      → Extends p v s.world.store t.world.store
      → cat p v q s ≡ ok b
      → cat p v q t ≡ ok b
  unfolding cat
  cat-Extends q b s t same x h = elim (Result-cases (get_mount_link p v q s)) [
    | inr (e, f) ↦ absurd (ground (arith, f, h))
    | inl (l, f) ↦
        let there =
          seek-Extends p v q s.inner.entry s.world.store t.world.store l x
            (at_of_get p v q s l f) in
        let f' = get_of_at p v q t l (rw same there) in
        let r =
          read_data-Extends p v q q l s.world.store t.world.store b x (ground (arith, f, h)) in
        ground (arith, f', r)
  ]

module _ (p : Platform) (v : Vault p) ⦃ko : Ord p.Key⦄ ⦃ho : Ord v.Hash⦄ (sl : StoreLaws p v)
    (cl : CodecLaws p v) where
  -- `save` loses no blob.
  save-Extends :
      (publish : Bool) (s s' : Session p v) (result : p.Link × p.Link × ℕ)
      → save p v publish s ≡ (s', ok result)
      → Extends p v s.world.store s'.world.store
  save-Extends publish s s' result e =
      let c = save-Steps p v sl cl publish s s' result e in
      let i = s.inner in
      let x7 = Grows-eq p v sl c.w5 (put_manifest-Grows p v sl c.m) c.put_manifest in
      let x5 = Grows-eq p v sl c.w4 (reshare-Grows p v sl c.k i.manifest.shares) c.share_out in
      let x4 = Grows-eq p v sl c.w3 (put_pins-Grows p v sl c.ops.1) c.put_pins in
      let x3 =
        Grows-eq p v sl c.w2
          (store_ops_log-Grows p v sl (log_is_empty i.ops_log) i.ops_log c.k c.pins) c.put_ops in
      let x2 = Grows-eq p v sl c.w1 (put_node-Grows p v sl i.entry c.k) c.put_entry in
      subst (λ w. Extends p v s.world.store w.store) c.world_of
        (λ h b f. x7 h b (
          x5 h b
            (x4 h b (x3 h b (x2 h b (subst (λ t. v.get h t ≡ some b) (sym c.first_store) f))))))

  -- A mount that its owner has saved is loaded with the contents of all its files.
  pub cat-load :
      (publish : Bool) (s s' : Session p v) (result : p.Link × p.Link × ℕ) (share : Share p)
      → get_share p (p.public_key s.inner.secret_key) s.inner.manifest ≡ some share
      → share.principal.role ≡ PrincipalRole.owner
      → share.principal.identity ≡ p.public_key s.inner.secret_key
      → save p v publish s ≡ (s', ok result)
      → (loaded : MountInner p v) × (load p v result.0 s.inner.secret_key s'.world.store
          ≡ ok loaded)
        × ((q : FilePath) (b : p.Bytes)
            → cat p v q s ≡ ok b
            → cat p v q (record { inner = loaded; world = s'.world }) ≡ ok b)
  cat-load publish s s' result share found role identity e =
      let (loaded, there, same, ops, m, height, next, previous) =
        load-save p v sl cl publish s s' result share found role identity e in
      (
        loaded,
        there,
        λ q b h.
            cat-Extends p v q b s (record { inner = loaded; world = s'.world }) same
              (save-Extends publish s s' result e) h,
      )
