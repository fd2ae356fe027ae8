-- ===== src/Mount/Blobs.antt =====
-- crates/common/src/mount/mount_inner.rs: errors, and what is read from and written to the blobs. A
-- path in an error is the list of its components, whether the code shows it with its root or not.
-- A blob that the store has can be read.
use jax_fs.Prelude.{ℕ, ◌+◌, Option}
use jax_fs.Prelude.Results
use jax_fs.Prelude.Results.{Result, ok, err, ok_or}
use jax_fs.Ord.{Ord}
use jax_fs.FilePath.{FilePath}
use jax_fs.PathOps.Log.{PathOpLog}
use jax_fs.Manifest.Platform.{Platform}
use jax_fs.Manifest.Types.{Manifest}
use jax_fs.Mount.Node.{Node, NodeLink, link_of, secret_of}
use jax_fs.Mount.Pins.{Pins, to_vec, from_vec}
use jax_fs.Mount.Vault.{Vault}
use jax_fs.Mount.Act.{Act, pure, give, ◌>>=◌}

-- `root_given` is the message that the root was given, `panicked` an `unwrap` of nothing,
-- `out_of_fuel` stands for a walk that does not end.
pub data MountError (p : Platform) : Type 0 where
  root_given panicked out_of_fuel blobs_store_failed secret_failed codec_failed share_failed
        manifest_failed share_not_found mirror_cannot_mount :
      MountError p
  link_not_found : p.Link → MountError p
  path_not_found path_not_node path_already_exists : FilePath → MountError p
  move_into_self : FilePath → FilePath → MountError p

-- The blobs, and the number of random draws so far.
pub record World (p : Platform) (v : Vault p) : Type 0 where
  pub store : v.Store
  pub draws : ℕ

module _ (p : Platform) (v : Vault p) where
  -- `blobs.stat` and then `blobs.get`.
  unfoldable pub read_blob : p.Link → v.Store → Result (MountError p) p.Bytes
  read_blob link s = ok_or (v.get (v.hash link) s) (MountError.link_not_found link)

  unfoldable pub read_secret : p.Link → p.Secret → v.Store → Result (MountError p) p.Bytes
  unfolding read_blob
  read_secret link secret s =
      Results.◌>>=◌ (read_blob link s)
        (λ blob. ok_or (v.decrypt secret blob) MountError.secret_failed)

  unfoldable pub get_node_from_blobs : NodeLink p → v.Store → Result (MountError p) (Node p)
  unfolding read_secret
  get_node_from_blobs link s =
      Results.◌>>=◌ (read_secret (link_of p link) (secret_of p link) s)
        (λ bytes. ok_or (v.decode_node bytes) MountError.codec_failed)

  unfoldable pub get_manifest_from_blobs : p.Link → v.Store → Result (MountError p) (Manifest p)
  unfolding read_blob
  get_manifest_from_blobs link s =
      Results.◌>>=◌ (read_blob link s)
        (λ bytes. ok_or (v.decode_manifest bytes) MountError.codec_failed)

  unfoldable pub get_ops_log_from_blobs :
      p.Link → p.Secret → v.Store → Result (MountError p) (PathOpLog p.Key p.Link)
  unfolding read_secret
  get_ops_log_from_blobs link secret s =
      Results.◌>>=◌ (read_secret link secret s)
        (λ bytes. ok_or (v.decode_log bytes) MountError.codec_failed)

  abbrev pub Effect : Type 0 → Type 0
  Effect A = Act (World p v) (MountError p) A

  -- `Secret::generate`
  unfoldable pub generate_secret : Effect p.Secret
  generate_secret w = (record w { draws = w.draws + 1 }, ok (v.generate w.draws))

  unfoldable pub encrypt : p.Secret → p.Bytes → Effect p.Bytes
  encrypt secret bytes w = (
    record w { draws = w.draws + 1 },
    ok_or (v.encrypt w.draws secret bytes) MountError.secret_failed,
  )

  unfoldable pub put_blob : p.Bytes → Effect v.Hash
  put_blob bytes w =
      let (s, r) = v.put bytes w.store in
      (record w { store = s }, ok_or r MountError.blobs_store_failed)

  unfoldable pub put_secret : Option p.Bytes → p.Secret → Effect p.Link
  unfolding encrypt put_blob
  put_secret encoded secret = do
    plain ← give (ok_or encoded MountError.codec_failed)
    bytes ← encrypt secret plain
    hash ← put_blob bytes
    pure (v.raw_link hash)

  unfoldable pub put_node_in_blobs : Node p → p.Secret → Effect p.Link
  unfolding put_secret
  put_node_in_blobs node secret = put_secret (v.encode_node node) secret

  unfoldable pub put_ops_log_in_blobs : PathOpLog p.Key p.Link → p.Secret → Effect p.Link
  unfolding put_secret
  put_ops_log_in_blobs ops_log secret = put_secret (v.encode_log ops_log) secret

  unfoldable pub put_manifest_in_blobs : Manifest p → Effect p.Link
  unfolding put_blob
  put_manifest_in_blobs bucket = do
    bytes ← give (ok_or (v.encode_manifest bucket) MountError.codec_failed)
    hash ← put_blob bytes
    pure (v.manifest_link hash)

  unfoldable pub put_pins_in_blobs : Pins v.Hash → Effect p.Link
  unfolding put_blob to_vec
  put_pins_in_blobs pins = do
    hash ← put_blob (v.encode_hashes (to_vec pins))
    pure (v.raw_link hash)

module _ (p : Platform) (v : Vault p) ⦃ho : Ord v.Hash⦄ where
  unfoldable pub get_pins_from_blobs : p.Link → v.Store → Result (MountError p) (Pins v.Hash)
  unfolding read_blob from_vec
  get_pins_from_blobs link s = Results.◌>>=◌ (read_blob p v link s) (λ bytes.
      Results.◌>>=◌ (ok_or (v.decode_hashes bytes) MountError.blobs_store_failed)
        (λ hashes. ok (from_vec hashes)))
