-- ===== src/Mount/Version.antt =====
-- A version that was put, one call after the other, is loaded.
use jax_fs.Prelude.{ℕ, ◌≡◌, refl, ◌∙◌, ap, Bool, true, false, Option, none, some}
use jax_fs.Prelude.Results.{ok}
use jax_fs.Ord.{Ord, u64_ord}
use jax_fs.Ord.Lex.{lex_ord}
use jax_fs.BTreeMap.{get}
use jax_fs.PathOps.Op.{op_id_ord}
use jax_fs.PathOps.Log.{log_is_empty}
use jax_fs.Manifest.Platform.{Platform}
use jax_fs.Manifest.Types.{PrincipalRole, Share, Shares, Manifest, get_share}
use jax_fs.Mount.Node.{dir_link}
use jax_fs.Mount.Pins.{Pins, to_vec, from_vec}
use jax_fs.Mount.Vault.{Vault, StoreLaws, CodecLaws}
use jax_fs.Mount.Blobs.{
  World, get_node_from_blobs, get_pins_from_blobs, put_node_in_blobs, put_pins_in_blobs,
  put_manifest_in_blobs,
}
use jax_fs.Mount.Session.{MountInner}
use jax_fs.Mount.Grows.{Extends-trans, Grows-eq, get_node-Extends}
use jax_fs.Mount.Placed.{read-put_node}
use jax_fs.Mount.Save.{
  load, load_manifest, reshare, next_version, sign_manifest, store_ops_log, load_ops_log,
  share_secret,
}
use jax_fs.Mount.Shares.{reshare-Grows, reshare-recover, sign_manifest-eq}
use jax_fs.Mount.Reads.{
  put_pins-Grows, put_manifest-Grows, store_ops_log-Grows, get-put_manifest, load-store_ops_log,
  get-put_pins,
}

module _ (p : Platform) (v : Vault p) ⦃ko : Ord p.Key⦄ ⦃ho : Ord v.Hash⦄ (sl : StoreLaws p v)
    (cl : CodecLaws p v) where
  -- What a version takes from its parts.
  pub next_version-eq :
      (publish : Bool) (k : p.Secret) (shares : Shares p) (pins previous entry : p.Link)
      (height : ℕ) (ops : Option p.Link) (m : Manifest p)
      → let n = next_version p v publish k shares pins previous entry height ops m in
        (n.shares ≡ shares)
        × (n.pins ≡ pins)
        × (n.entry ≡ entry)
        × (n.height ≡ height)
        × (n.ops_log ≡ ops)
        × (n.previous ≡ some previous)
  unfolding next_version
  next_version-eq true k shares pins previous entry height none m =
      (refl, refl, refl, refl, refl, refl)
  next_version-eq true k shares pins previous entry height (some l) m =
      (refl, refl, refl, refl, refl, refl)
  next_version-eq false k shares pins previous entry height none m =
      (refl, refl, refl, refl, refl, refl)
  next_version-eq false k shares pins previous entry height (some l) m =
      (refl, refl, refl, refl, refl, refl)

  share_secret-owner :
      (role : PrincipalRole) (key : p.SecretKey) (m : Manifest p) (share : Share p)
      (x : p.SecretShare) (k : p.Secret)
      → role ≡ PrincipalRole.owner
      → share.share ≡ some x
      → v.recover x key ≡ some k
      → share_secret p v role key m share ≡ ok k
  unfolding share_secret
  share_secret-owner PrincipalRole.owner key m share x k r e f = rw (e, f) refl
  share_secret-owner PrincipalRole.mirror key m share x k r e f = cc

  -- A version is loaded from what was put for it, one call after the other.
  pub load-put :
      (i : MountInner p v) (share : Share p) (k : p.Secret) (entry pins_link l : p.Link)
      (pins : Pins v.Hash) (ops : Option p.Link × Pins v.Hash) (shares : Shares p)
      (m template : Manifest p) (w1 w2 w3 w4 w5 w7 : World p v)
      → get_share p (p.public_key i.secret_key) i.manifest ≡ some share
      → share.principal.role ≡ PrincipalRole.owner
      → share.principal.identity ≡ p.public_key i.secret_key
      → put_node_in_blobs p v i.entry k w1 ≡ (w2, ok entry)
      → store_ops_log p v (log_is_empty i.ops_log) i.ops_log k pins w2 ≡ (w3, ok ops)
      → put_pins_in_blobs p v ops.1 w3 ≡ (w4, ok pins_link)
      → reshare p v k i.manifest.shares w4 ≡ (w5, ok shares)
      → (template.shares ≡ shares)
        × (template.pins ≡ pins_link)
        × (template.entry ≡ entry)
        × (template.ops_log ≡ ops.0)
      → sign_manifest p v i.secret_key template ≡ ok m
      → put_manifest_in_blobs p v m w5 ≡ (w7, ok l)
      → (loaded : MountInner p v) × (load p v l i.secret_key w7.store ≡ ok loaded)
        × (loaded.entry ≡ i.entry)
        × (loaded.manifest ≡ m)
        × (loaded.height ≡ template.height)
        × (loaded.ops_log.operations ≡ i.ops_log.operations)
  unfolding load load_manifest get_share
  load-put i share k entry pins_link l pins ops shares m template w1 w2 w3 w4 w5 w7 found role
        identity e2 e3 e4 e5 (ms, mp, me, mo) e6 e7 =
      let key = i.secret_key in
      let t = w7.store in
      let x5 = Grows-eq p v sl w5 (put_manifest-Grows p v sl m) e7 in
      let x4 =
        Extends-trans p v w4.store w5.store t
          (Grows-eq p v sl w4 (reshare-Grows p v sl k i.manifest.shares) e5) x5 in
      let x3 =
        Extends-trans p v w3.store w4.store t (Grows-eq p v sl w3 (put_pins-Grows p v sl ops.1) e4)
          x4 in
      let x2 =
        Extends-trans p v w2.store w3.store t
          (Grows-eq p v sl w2 (store_ops_log-Grows p v sl (log_is_empty i.ops_log) i.ops_log k pins)
            e3)
          x3 in
      let q = sign_manifest-eq p v sl key template m e6 in
      let read_m = get-put_manifest p v sl cl m w5 w7 l e7 in
      let (first, got, whose, secret) =
        reshare-recover p v sl cl k i.manifest.shares shares (p.to_hex (p.public_key key)) share key
          w4 w5 role identity found e5 in
      let share_m : get_share p (p.public_key key) m ≡ some first =
        ap (λ x. get (p.to_hex (p.public_key key)) x) (ap (λ x. x.shares) q ∙ ms) ∙ got in
      let secret_m =
        share_secret-owner first.principal.role key m first secret.0 k
          (ap (λ x. x.role) whose ∙ role) secret.1 secret.2 in
      let pins_m =
        ap (λ x. get_pins_from_blobs p v x t) (ap (λ x. x.pins) q ∙ mp)
        ∙ get-put_pins p v sl cl ops.1 w3 w4 pins_link t e4 x4 in
      let node_m =
        ap (λ x. get_node_from_blobs p v (dir_link x k) t) (ap (λ x. x.entry) q ∙ me)
        ∙ get_node-Extends p v (dir_link entry k) i.entry w2.store t x2
            (read-put_node p v sl cl i.entry k w1 w2 entry e2) in
      let (log, ops_read, same) = load-store_ops_log p v sl cl i.ops_log k pins w2 w3 ops t e3 x3 in
      let ops_m = ap (λ x. load_ops_log p v x k t) (ap (λ x. x.ops_log) q ∙ mo) ∙ ops_read in
      (
        record {
          link = l;
          manifest = m;
          entry = i.entry;
          pins = from_vec (to_vec ops.1);
          height = m.height;
          ops_log = log;
          peer_id = p.public_key key;
          secret_key = key;
        },
        rw (read_m, share_m, secret_m, pins_m, node_m, ops_m) refl,
        refl,
        refl,
        ap (λ x. x.height) q,
        same,
      )
