-- ===== src/Mount/Saved.antt =====
-- crates/common/src/mount/mount_inner.rs: an owner who saves a mount can load it.
use jax_fs.Prelude.{refl, ℕ, ◌+◌, ◌%◌, ◌≡◌, sym, ◌∙◌, ap, subst, Bool, Option, some, arith, u64_mod}
use jax_fs.Prelude.Results.{Result, ok}
use jax_fs.Ord.{Ord, u64_ord}
use jax_fs.Ord.Lex.{lex_ord}
use jax_fs.PathOps.Op.{op_id_ord}
use jax_fs.PathOps.Log.{log_is_empty}
use jax_fs.Manifest.Platform.{Platform}
use jax_fs.Manifest.Types.{PrincipalRole, Share, Shares, Manifest, get_share}
use jax_fs.Mount.Pins.{Pins, pin}
use jax_fs.Mount.Vault.{Vault, StoreLaws, CodecLaws}
use jax_fs.Mount.Act.{give-eq-ok}
use jax_fs.Mount.Blobs.{
  MountError, World, generate_secret, put_node_in_blobs, put_pins_in_blobs, put_manifest_in_blobs,
}
use jax_fs.Mount.Session.{MountInner, Session}
use jax_fs.Mount.Adding.{after-on_blobs}
use jax_fs.Mount.Save.{save, load, reshare, next_version, sign_manifest, store_ops_log}
use jax_fs.Mount.Shares.{sign_manifest-eq}
use jax_fs.Mount.Version.{next_version-eq, load-put}

ok_lem : {E A : Type 0} {a b : A} → ◌≡◌ {A = Result E A} (ok a) (ok b) → a ≡ b
ok_lem h = ground (arith, h)

module _ (p : Platform) (v : Vault p) ⦃ko : Ord p.Key⦄ ⦃ho : Ord v.Hash⦄ (sl : StoreLaws p v)
    (cl : CodecLaws p v) where
  -- How it ends.
  save_end :
      (s' : Session p v) (w : World p v) (i : MountInner p v) (r result : p.Link × p.Link × ℕ)
      → ◌≡◌ {A = Session p v × Result (MountError p) (p.Link × p.Link × ℕ)}
          (record { inner = i; world = w }, ok r)
          (s', ok result)
      → (w ≡ s'.world)
        × (i.manifest ≡ s'.inner.manifest)
        × (i.link ≡ s'.inner.link)
        × (i.entry ≡ s'.inner.entry)
        × (r ≡ result)
  save_end s' w i r result e = (
    ap (λ x. x.0.world) e,
    ap (λ x. x.0.inner.manifest) e,
    ap (λ x. x.0.inner.link) e,
    ap (λ x. x.0.inner.entry) e,
    ok_lem (ap (λ x. x.1) e),
  )

  -- The calls of a `save` that succeeded, in turn.
  pub record Steps (publish : Bool) (s s' : Session p v) (result : p.Link × p.Link × ℕ)
      : Type 0 where
    pub k : p.Secret
    pub entry : p.Link
    pub pins_link : p.Link
    pub l : p.Link
    pub pins : Pins v.Hash
    pub ops : Option p.Link × Pins v.Hash
    pub shares : Shares p
    pub m : Manifest p
    pub w1 : World p v
    pub w2 : World p v
    pub w3 : World p v
    pub w4 : World p v
    pub w5 : World p v
    pub w7 : World p v
    pub first_store : w1.store ≡ s.world.store
    pub put_entry : put_node_in_blobs p v s.inner.entry k w1 ≡ (w2, ok entry)
    pub put_ops :
        store_ops_log p v (log_is_empty s.inner.ops_log) s.inner.ops_log k pins w2 ≡ (w3, ok ops)
    pub put_pins : put_pins_in_blobs p v ops.1 w3 ≡ (w4, ok pins_link)
    pub share_out : reshare p v k s.inner.manifest.shares w4 ≡ (w5, ok shares)
    pub sign_it :
        sign_manifest p v s.inner.secret_key (
          next_version p v publish k shares pins_link s.inner.link entry
            ((s.inner.height + 1) % u64_mod)
            ops.0
            s.inner.manifest)
        ≡ ok m
    pub put_manifest : put_manifest_in_blobs p v m w5 ≡ (w7, ok l)
    pub world_of : w7 ≡ s'.world
    pub manifest_of : m ≡ s'.inner.manifest
    pub link_of : l ≡ s'.inner.link
    pub entry_of : s.inner.entry ≡ s'.inner.entry
    pub result_of : (l, s.inner.link, (s.inner.height + 1) % u64_mod) ≡ result

  pub save-Steps :
      (publish : Bool) (s s' : Session p v) (result : p.Link × p.Link × ℕ)
      → save p v publish s ≡ (s', ok result)
      → Steps publish s s' result
  unfolding save generate_secret
  save-Steps publish s s' result e =
      let i = s.inner in
      let k = v.generate s.world.draws in
      let w1 : World p v = record s.world { draws = s.world.draws + 1 } in
      let (w2, entry, e2, f2) =
        after-on_blobs p v (put_node_in_blobs p v i.entry k) (record s { world = w1 }) _ e in
      let pins = pin (v.hash i.link) (pin (v.hash entry) i.pins) in
      let (w3, ops, e3, f3) =
        after-on_blobs p v (store_ops_log p v (log_is_empty i.ops_log) i.ops_log k pins)
          (record s { world = w2 }) _ f2 in
      let (w4, pins_link, e4, f4) =
        after-on_blobs p v (put_pins_in_blobs p v ops.1) (record s { world = w3 }) _ f3 in
      let (w5, shares, e5, f5) =
        after-on_blobs p v (reshare p v k i.manifest.shares) (record s { world = w4 }) _ f4 in
      let template =
        next_version p v publish k shares pins_link i.link entry ((i.height + 1) % u64_mod) ops.0
          i.manifest in
      let (m, e6, f6) =
        give-eq-ok (sign_manifest p v i.secret_key template) (record s { world = w5 }) _ f5 in
      let (w7, l, e7, f7) =
        after-on_blobs p v (put_manifest_in_blobs p v m) (record s { world = w5 }) _ f6 in
      let (same_world, same_manifest, same_link, same_entry, same_result) =
        save_end s' w7 _ _ result f7 in
      record {
        k = k;
        entry = entry;
        pins_link = pins_link;
        l = l;
        pins = pins;
        ops = ops;
        shares = shares;
        m = m;
        w1 = w1;
        w2 = w2;
        w3 = w3;
        w4 = w4;
        w5 = w5;
        w7 = w7;
        first_store = refl;
        put_entry = e2;
        put_ops = e3;
        put_pins = e4;
        share_out = e5;
        sign_it = e6;
        put_manifest = e7;
        world_of = same_world;
        manifest_of = same_manifest;
        link_of = same_link;
        entry_of = same_entry;
        result_of = same_result;
      }

  -- Over blobs, encryption, shares and codecs that keep their laws, for a mount whose manifest
  -- has an owner's share for the key of the mount: when `save` succeeds, `load` of the link that
  -- it returns succeeds with that key: the tree, the operations of the log and the manifest are
  -- those that were saved, the height is the returned one, which is one more (modulo 2^64), and
  -- the previous link is the one the mount had.
  pub load-save :
      (publish : Bool) (s s' : Session p v) (result : p.Link × p.Link × ℕ) (share : Share p)
      → get_share p (p.public_key s.inner.secret_key) s.inner.manifest ≡ some share
      → share.principal.role ≡ PrincipalRole.owner
      → share.principal.identity ≡ p.public_key s.inner.secret_key
      → save p v publish s ≡ (s', ok result)
      → (loaded : MountInner p v) × (load p v result.0 s.inner.secret_key s'.world.store
          ≡ ok loaded)
        × (loaded.entry ≡ s.inner.entry)
        × (loaded.ops_log.operations ≡ s.inner.ops_log.operations)
        × (loaded.manifest ≡ s'.inner.manifest)
        × (loaded.height ≡ result.2)
        × (result.2 ≡ (s.inner.height + 1) % u64_mod)
        × (loaded.manifest.previous ≡ some s.inner.link)
  load-save publish s s' result share found role identity e =
      let c = save-Steps publish s s' result e in
      let i = s.inner in
      let n =
        next_version-eq p v sl cl publish c.k c.shares c.pins_link i.link c.entry
          ((i.height + 1) % u64_mod) c.ops.0 i.manifest in
      let (loaded, z, a, b, h, d) =
        load-put p v sl cl i share c.k c.entry c.pins_link c.l c.pins c.ops c.shares c.m _ c.w1 c.w2
          c.w3 c.w4 c.w5 c.w7 found role identity c.put_entry c.put_ops c.put_pins c.share_out
          (n.0, n.1, n.2, n.4) c.sign_it c.put_manifest in
      let q = sign_manifest-eq p v sl i.secret_key _ c.m c.sign_it in
      (
        loaded,
        subst (λ x. load p v x.0 i.secret_key s'.world.store ≡ ok loaded) c.result_of
            (subst (λ x. load p v c.l i.secret_key x.store ≡ ok loaded) c.world_of z),
        a,
        d,
        b ∙ c.manifest_of,
        h ∙ n.3 ∙ ap (λ x. x.2) c.result_of,
        sym (ap (λ x. x.2) c.result_of),
        ap (λ x. x.previous) (b ∙ q) ∙ n.5,
      )
