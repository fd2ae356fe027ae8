-- ===== src/Mount/Save.antt =====
-- crates/common/src/mount/mount_inner.rs: `save`, `init` and `load`, and the shares of a mount.
use jax_fs.Prelude.{ℕ, ◌+◌, ◌%◌, Bool, true, false, Option, none, some, [], ◌∷◌, u64_mod}
use jax_fs.Prelude.Results
use jax_fs.Prelude.Results.{Result, ok, err, ok_or}
use jax_fs.Ord.{Ord, u64_ord}
use jax_fs.Ord.Lex.{lex_ord}
use jax_fs.FilePath.{Name}
use jax_fs.PathOps.Op.{op_id_ord}
use jax_fs.PathOps.Log.{PathOpLog, new, log_is_empty, clear_preserving_clock, rebuild_clock}
use jax_fs.Manifest.Platform.{Platform}
use jax_fs.Manifest.Types.{
  PrincipalRole, Share, Shares, Manifest, new_owner, new_mirror, set_share, get_share, add_share,
  new_manifest, set_pins, set_previous, set_entry, set_height, clear_ops_log, set_ops_log,
  is_published,
}
use jax_fs.Manifest.Types
use jax_fs.Manifest.Signing.{ManifestError, sign}
use jax_fs.Mount.Node.{dir_link, new_node}
use jax_fs.Mount.Pins.{Pins, new_pins, pin}
use jax_fs.Mount.Vault.{Vault}
use jax_fs.Mount.Act.{pure, give, gets, ◌>>=◌, ◌>>◌}
use jax_fs.Mount.Blobs.{
  MountError, Effect, get_node_from_blobs, get_manifest_from_blobs, get_ops_log_from_blobs,
  get_pins_from_blobs, generate_secret, put_node_in_blobs, put_ops_log_in_blobs,
  put_manifest_in_blobs, put_pins_in_blobs,
}
use jax_fs.Mount.Session.{MountInner, Session, Method, on_blobs, update}

module _ (p : Platform) (v : Vault p) where
  -- `SecretShare::new`
  unfoldable pub new_share : p.Secret → p.Key → Effect p v p.SecretShare
  new_share secret key w = (
    record w { draws = w.draws + 1 },
    ok_or (v.new_share w.draws secret key) MountError.share_failed,
  )

  -- An owner gets a share of the new secret; a mirror keeps what it has.
  unfoldable pub reshare_one : p.Secret → PrincipalRole → Share p → Effect p v (Share p)
  unfolding new_share set_share
  reshare_one secret PrincipalRole.owner share = do
    secret_share ← new_share secret share.principal.identity
    pure (set_share p secret_share share)
  reshare_one secret PrincipalRole.mirror share = pure share

  unfoldable pub reshare : p.Secret → Shares p → Effect p v (Shares p)
  unfolding reshare_one
  reshare secret [] = pure []
  reshare secret ((key, share) ∷ shares) = do
    first ← reshare_one secret share.principal.role share
    rest ← reshare secret shares
    pure ((key, first) ∷ rest)

  abbrev publish_if : Bool → p.Secret → Manifest p → Manifest p
  publish_if true secret m = Types.publish p secret m
  publish_if false secret m = Types.unpublish p m

  abbrev with_ops_log : Option p.Link → Manifest p → Manifest p
  with_ops_log none m = m
  with_ops_log (some link) m = set_ops_log p link m

  -- The manifest of the next version, before it is signed.
  unfoldable pub next_version :
      Bool
      → p.Secret
      → Shares p
      → p.Link
      → p.Link
      → p.Link
      → ℕ
      → Option p.Link
      → Manifest p
      → Manifest p
  unfolding set_pins set_previous set_entry set_height clear_ops_log set_ops_log Types.publish
      Types.unpublish
  next_version publish secret shares pins previous entry height ops_log template =
      with_ops_log ops_log (
        clear_ops_log p (
          set_height p height (
            set_entry p entry (
              set_previous p previous (
                set_pins p pins
                  (publish_if publish secret (record template { shares = shares })))))))

  abbrev signed : Manifest p × Result ManifestError (Unit {0}) → Result (MountError p) (Manifest p)
  signed (m, ok u) = ok m
  signed (m, err e) = err MountError.manifest_failed

  unfoldable pub sign_manifest : p.SecretKey → Manifest p → Result (MountError p) (Manifest p)
  unfolding sign
  sign_manifest secret_key m = signed (sign p v.encode_manifest secret_key m)

  -- The secret of a version, by the role of the peer.
  unfoldable pub share_secret :
      PrincipalRole → p.SecretKey → Manifest p → Share p → Result (MountError p) p.Secret
  share_secret PrincipalRole.owner secret_key manifest share =
      Results.◌>>=◌ (ok_or share.share MountError.share_not_found)
        (λ s. ok_or (v.recover s secret_key) MountError.share_failed)
  share_secret PrincipalRole.mirror secret_key manifest share =
      ok_or manifest.public MountError.mirror_cannot_mount

  unfoldable pub load_ops_log :
      Option p.Link → p.Secret → v.Store → Result (MountError p) (PathOpLog p.Key p.Link)
  unfolding get_ops_log_from_blobs rebuild_clock
  load_ops_log none secret s = ok new
  load_ops_log (some link) secret s =
      Results.◌>>=◌ (get_ops_log_from_blobs p v link secret s) (λ log. ok (rebuild_clock log))

  -- `load_manifest`
  unfoldable pub load_manifest : p.Link → v.Store → Result (MountError p) (Manifest p)
  unfolding get_manifest_from_blobs
  load_manifest link s = get_manifest_from_blobs p v link s

module _ (p : Platform) (v : Vault p) ⦃ko : Ord p.Key⦄ ⦃ho : Ord v.Hash⦄ where
  -- The log of a version is stored where it has operations, and pinned.
  unfoldable pub store_ops_log :
      Bool
      → PathOpLog p.Key p.Link
      → p.Secret
      → Pins v.Hash
      → Effect p v (Option p.Link × Pins v.Hash)
  unfolding put_ops_log_in_blobs pin
  store_ops_log true ops_log secret pins = pure (none, pins)
  store_ops_log false ops_log secret pins = do
    link ← put_ops_log_in_blobs p v ops_log secret
    pure (some link, pin (v.hash link) pins)

  unfoldable pub save : Bool → Method p v (p.Link × p.Link × ℕ)
  unfolding generate_secret put_node_in_blobs store_ops_log put_pins_in_blobs reshare next_version
      sign_manifest put_manifest_in_blobs pin log_is_empty clear_preserving_clock
  save publish = do
    inner ← gets (λ s. s.inner)
    let height = (inner.height + 1) % u64_mod
    secret ← on_blobs p v (generate_secret p v)
    entry ← on_blobs p v (put_node_in_blobs p v inner.entry secret)
    let pins = pin (v.hash inner.link) (pin (v.hash entry) inner.pins)
    ops ← on_blobs p v (store_ops_log (log_is_empty inner.ops_log) inner.ops_log secret pins)
    pins_link ← on_blobs p v (put_pins_in_blobs p v ops.1)
    shares ← on_blobs p v (reshare p v secret inner.manifest.shares)
    let template =
        next_version p v publish secret shares pins_link inner.link entry height ops.0
          inner.manifest
    manifest ← give (sign_manifest p v inner.secret_key template)
    link ← on_blobs p v (put_manifest_in_blobs p v manifest)
    update p v (λ i. record i {
      manifest = manifest;
      height = height;
      link = link;
      ops_log = clear_preserving_clock i.ops_log;
    })
    pure (link, inner.link, height)

  -- `publish`
  unfoldable pub publish_mount : Method p v (p.Link × p.Link × ℕ)
  unfolding save
  publish_mount = save true

  unfoldable pub init : p.Uuid → Name → p.SecretKey → Effect p v (MountInner p v)
  unfolding generate_secret put_node_in_blobs new_share put_pins_in_blobs new_manifest sign_manifest
      put_manifest_in_blobs pin
  init id name owner = do
    secret ← generate_secret p v
    entry_link ← put_node_in_blobs p v (new_node p) secret
    share ← new_share p v secret (p.public_key owner)
    let pins = pin (v.hash entry_link) new_pins
    pins_link ← put_pins_in_blobs p v pins
    manifest ← give (
        sign_manifest p v owner (
          new_manifest p v.default_version id name (p.public_key owner) share entry_link pins_link
            0))
    link ← put_manifest_in_blobs p v manifest
    pure record {
      link = link;
      manifest = manifest;
      entry = new_node p;
      pins = pins;
      height = 0;
      ops_log = new;
      peer_id = p.public_key owner;
      secret_key = owner;
    }

  unfoldable pub load : p.Link → p.SecretKey → v.Store → Result (MountError p) (MountInner p v)
  unfolding load_manifest get_share share_secret get_pins_from_blobs get_node_from_blobs
      load_ops_log
  load link secret_key s = Results.◌>>=◌ (load_manifest p v link s) λ manifest.
      Results.◌>>=◌
        (ok_or (get_share p (p.public_key secret_key) manifest) MountError.share_not_found)
        λ share.
          Results.◌>>=◌ (share_secret p v share.principal.role secret_key manifest share) λ secret.
            Results.◌>>=◌ (get_pins_from_blobs p v manifest.pins s) λ pins.
              Results.◌>>=◌ (get_node_from_blobs p v (dir_link manifest.entry secret) s) λ entry.
                Results.◌>>=◌ (load_ops_log p v manifest.ops_log secret s) λ ops_log. ok record {
                  link = link;
                  manifest = manifest;
                  entry = entry;
                  pins = pins;
                  height = manifest.height;
                  ops_log = ops_log;
                  peer_id = p.public_key secret_key;
                  secret_key = secret_key;
                }

  unfoldable pub add_owner : p.Key → Method p v (Unit {0})
  unfolding new_share add_share new_owner
  add_owner peer = do
    secret_share ← on_blobs p v (new_share p v v.default_secret peer)
    update p v (λ i. record i { manifest = add_share p (new_owner p secret_share peer) i.manifest })

  unfoldable pub add_mirror : p.Key → Method p v (Unit {0})
  unfolding add_share new_mirror
  add_mirror peer =
      update p v (λ i. record i { manifest = add_share p (new_mirror p peer) i.manifest })

  unfoldable pub is_mount_published : Session p v → Bool
  unfolding is_published
  is_mount_published s = is_published p s.inner.manifest
