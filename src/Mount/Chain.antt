-- ===== src/Mount/Chain.antt =====
-- crates/common/src/mount/mount_inner.rs: the walks back along the versions of a bucket. A walk ends
-- only because the links of manifests do not go round in a circle, so it is given fuel.
use jax_fs.Prelude.{
  ℕ, zero, suc, Bool, true, false, Option, none, some, List, [], ◌∷◌, if◌then◌else◌,
}
use jax_fs.Prelude.Results
use jax_fs.Prelude.Results.{Result, ok, err, ok_or}
use jax_fs.Ord.{Ord, u64_ord}
use jax_fs.Ord.Lex.{lex_ord}
use jax_fs.PathOps.Op.{op_id_ord}
use jax_fs.PathOps.Log.{PathOpLog, new, merge, log_is_empty, rebuild_clock}
use jax_fs.Manifest.Platform.{Platform}
use jax_fs.Manifest.Types.{Manifest, get_share}
use jax_fs.Mount.Pins.{Pins, pin, is_pinned, new_pins}
use jax_fs.Mount.Vault.{Vault}
use jax_fs.Mount.Blobs.{MountError, get_manifest_from_blobs, get_ops_log_from_blobs}
use jax_fs.Mount.Session.{MountInner}
use jax_fs.Mount.Save.{share_secret}
use jax_fs.Sync.Chain.{follow, is_stop}

-- `merged.merge(&log)` for each of the logs, the oldest first.
unfoldable pub merge_all :
    {Key Link : Type 0} ⦃o : Ord Key⦄
    → List (PathOpLog Key Link)
    → PathOpLog Key Link
    → PathOpLog Key Link
unfolding merge
merge_all [] merged = merged
merge_all (log ∷ logs) merged = merge_all logs (merge merged log).0

module _ (p : Platform) (v : Vault p) where
  abbrev pub Log : Type 0
  Log = PathOpLog p.Key p.Link

  unfoldable pub get_secret_for_manifest : Manifest p → p.SecretKey → Result (MountError p) p.Secret
  unfolding get_share share_secret
  get_secret_for_manifest manifest secret_key =
      Results.◌>>=◌
        (ok_or (get_share p (p.public_key secret_key) manifest) MountError.share_not_found)
        (λ share. share_secret p v share.principal.role secret_key manifest share)

  -- The log of a version on top of those of the later ones.
  unfoldable pub push_log :
      Option p.Link → p.Secret → List Log → v.Store → Result (MountError p) (List Log)
  unfolding get_ops_log_from_blobs rebuild_clock
  push_log none secret logs s = ok logs
  push_log (some ops_link) secret logs s =
      Results.◌>>=◌ (get_ops_log_from_blobs p v ops_link secret s)
        (λ log. ok (rebuild_clock log ∷ logs))

  -- The `match` on the secret of a version: a version that is not shared with the peer ends the walk.
  unfoldable pub if_shared :
      Result (MountError p) p.Secret
      → List Log
      → (p.Secret → Result (MountError p) (List Log))
      → Result (MountError p) (List Log)
  if_shared (ok secret) logs next = next secret
  if_shared (err MountError.share_not_found) logs next = ok logs
  if_shared (err e) logs next = err e

  -- One round of the loop of `collect_ops_since`. The logs that the code pushes and at last reverses
  -- are put in front at once.
  unfoldable pub visit_version :
      Bool
      → p.Link
      → p.SecretKey
      → List Log
      → v.Store
      → (p.Link → List Log → Result (MountError p) (List Log))
      → Result (MountError p) (List Log)
  unfolding get_manifest_from_blobs get_secret_for_manifest push_log if_shared follow
  visit_version true link secret_key logs s next = ok logs
  visit_version false link secret_key logs s next =
      Results.◌>>=◌ (get_manifest_from_blobs p v link s) λ manifest.
        if_shared (get_secret_for_manifest manifest secret_key) logs λ secret.
          Results.◌>>=◌ (push_log manifest.ops_log secret logs s)
            λ longer. follow p manifest.previous (ok longer) (λ prev. next prev longer)

  -- One round of the walk that looks for a link of the other chain.
  unfoldable pub seek_link :
      Bool
      → p.Link
      → v.Store
      → (p.Link → Result (MountError p) (Option p.Link))
      → Result (MountError p) (Option p.Link)
  unfolding get_manifest_from_blobs follow
  seek_link true link s next = ok (some link)
  seek_link false link s next =
      Results.◌>>=◌ (get_manifest_from_blobs p v link s)
        (λ manifest. follow p manifest.previous (ok none) next)

module _ (p : Platform) (v : Vault p) ⦃ko : Ord p.Key⦄ ⦃lo : Ord p.Link⦄ where
  unfoldable pub collect_logs :
      ℕ
      → Option p.Link
      → p.Link
      → p.SecretKey
      → v.Store
      → List (Log p v)
      → Result (MountError p) (List (Log p v))
  unfolding visit_version is_stop
  collect_logs zero ancestor_link link secret_key s logs = err MountError.out_of_fuel
  collect_logs (suc fuel) ancestor_link link secret_key s logs =
      visit_version p v (is_stop ancestor_link link) link secret_key logs s
        (λ prev longer. collect_logs fuel ancestor_link prev secret_key s longer)

  abbrev unsaved : Log p v → List (Log p v)
  unsaved log = if log_is_empty log then [] else log ∷ []

  unfoldable pub collect_ops_since :
      ℕ → Option p.Link → MountInner p v → v.Store → Result (MountError p) (Log p v)
  unfolding collect_logs merge_all log_is_empty
  collect_ops_since fuel ancestor_link inner s =
      Results.◌>>=◌
        (collect_logs fuel ancestor_link inner.link inner.secret_key s (unsaved inner.ops_log))
        (λ logs. ok (merge_all logs new))

module _ (p : Platform) (v : Vault p) ⦃lo : Ord p.Link⦄ where
  -- The set of the links of a chain.
  unfoldable pub chain_links :
      ℕ → p.Link → Pins p.Link → v.Store → Result (MountError p) (Pins p.Link)
  unfolding get_manifest_from_blobs follow pin
  chain_links zero link chain s = err MountError.out_of_fuel
  chain_links (suc fuel) link chain s =
      Results.◌>>=◌ (get_manifest_from_blobs p v link s) λ manifest.
        follow p manifest.previous (ok (pin link chain))
          (λ prev. chain_links fuel prev (pin link chain) s)

  unfoldable pub first_link_in :
      ℕ → p.Link → Pins p.Link → v.Store → Result (MountError p) (Option p.Link)
  unfolding seek_link is_pinned
  first_link_in zero link chain s = err MountError.out_of_fuel
  first_link_in (suc fuel) link chain s =
      seek_link p v (is_pinned link chain) link s (λ prev. first_link_in fuel prev chain s)

  unfoldable pub find_mount_ancestor :
      ℕ → MountInner p v → MountInner p v → v.Store → Result (MountError p) (Option p.Link)
  unfolding chain_links first_link_in
  find_mount_ancestor fuel inner other s =
      Results.◌>>=◌ (chain_links fuel inner.link new_pins s)
        (λ self_chain. first_link_in fuel other.link self_chain s)
