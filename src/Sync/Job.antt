-- ===== src/Sync/Job.antt =====
-- crates/common/src/peer/sync/sync_bucket.rs: the application of a chain to the log, and the job.
-- `fetch` is as in Sync/Chain, `load` reads a manifest from the local blobs, and the queue takes
-- every job that is dispatched to it.
use jax_fs.Prelude.{
  ℕ, ◌&&◌, Option, none, some, List, [], ◌∷◌, map, is_none, map_option, if◌then◌else◌,
}
use jax_fs.Prelude.Results.{Result, ok, err, ok_or, ◌>>=◌}
use jax_fs.Ord.{Ord}
use jax_fs.BTreeMap.{values}
use jax_fs.Manifest.Platform.{Platform}
use jax_fs.Manifest.Types.{Manifest, is_published}
use jax_fs.BucketLog.Memory.{BucketLogError, Inner, append, exists, has}
use jax_fs.Sync.Provenance.{ProvenanceError, ProvenanceResult, verify_provenance}
use jax_fs.Sync.Chain.{SyncError, Linked, download_manifest_chain, find_common_ancestor}

pub record DownloadPinsJob (p : Platform) : Type 0 where
  pub pins_link : p.Link
  pub peer_ids : List p.Key

-- The peer as the job changes it: its log, and what it has dispatched.
pub record Peer (p : Platform) : Type 0 where
  pub logs : Inner p.Uuid p.Link
  pub jobs : List (DownloadPinsJob p)

pub record SyncTarget (p : Platform) : Type 0 where
  pub link : p.Link
  pub height : ℕ
  pub peer_ids : List p.Key

pub record SyncBucketJob (p : Platform) : Type 0 where
  pub bucket_id : p.Uuid
  pub target : SyncTarget p

module _ (p : Platform) where
  abbrev pub Outcome : Type 0
  Outcome = Peer p × Result (SyncError p) (Unit {0})

  unfoldable pub download_pins : Manifest p → DownloadPinsJob p
  unfolding values
  download_pins manifest = record {
    pins_link = manifest.pins;
    peer_ids = map (λ share. share.principal.identity) (values manifest.shares);
  }

  -- What follows `append`: the new log stands, and the job is dispatched only on success.
  unfoldable pub after_append :
      Manifest p
      → List (DownloadPinsJob p)
      → Inner p.Uuid p.Link × Result (BucketLogError p.Link) (Unit {0})
      → Outcome
  unfolding download_pins
  after_append manifest jobs (logs, err e) =
      (record { logs = logs; jobs = jobs }, err (SyncError.append_failed manifest.height))
  after_append manifest jobs (logs, ok _) =
      (record { logs = logs; jobs = download_pins manifest ∷ jobs }, ok tt)

  -- `manifests.last()` of a list with a first item.
  unfoldable pub latest : Linked p → List (Linked p) → Manifest p
  latest first [] = first.0
  latest first (second ∷ rest) = latest second rest

module _ (p : Platform) ⦃uo : Ord p.Uuid⦄ ⦃lo : Ord p.Link⦄ (default_link : p.Link) where
  -- `if let Some(..) = manifests.iter().enumerate().next()`: the first manifest, and no other.
  unfoldable pub apply_manifest_chain : p.Uuid → List (Linked p) → Peer p → Outcome p
  unfolding after_append append is_published
  apply_manifest_chain bucket_id [] peer = (peer, ok tt)
  apply_manifest_chain bucket_id ((manifest, link) ∷ rest) peer =
      after_append p manifest peer.jobs (
        append default_link bucket_id manifest.name link manifest.previous manifest.height
          (is_published p manifest) peer.logs)

  -- The `match` on the provenance of the latest manifest.
  unfoldable pub apply_if_valid :
      Result (ProvenanceError p) ProvenanceResult → p.Uuid → List (Linked p) → Peer p → Outcome p
  unfolding apply_manifest_chain
  apply_if_valid (err e) bucket_id manifests peer = (peer, err (SyncError.provenance e))
  apply_if_valid (ok ProvenanceResult.not_authorized) bucket_id manifests peer = (peer, ok tt)
  apply_if_valid (ok ProvenanceResult.valid) bucket_id manifests peer =
      apply_manifest_chain bucket_id manifests peer
  apply_if_valid (ok ProvenanceResult.unsigned_legacy) bucket_id manifests peer =
      apply_manifest_chain bucket_id manifests peer

  module _ (encode : Manifest p → Option p.Bytes) (our_pub_key : p.Key) where
    unfoldable pub receive :
        Option (Manifest p) → p.Uuid → Result (SyncError p) (List (Linked p)) → Peer p → Outcome p
    unfolding apply_if_valid verify_provenance latest
    receive trusted_base bucket_id (err e) peer = (peer, err e)
    receive trusted_base bucket_id (ok []) peer = (peer, ok tt)
    receive trusted_base bucket_id (ok (first ∷ rest)) peer =
        apply_if_valid (verify_provenance p encode our_pub_key (latest p first rest) trusted_base)
          bucket_id (first ∷ rest) peer

    module _ (fetch load : p.Link → Option (Manifest p)) (fuel : ℕ) where
      -- The common ancestor is looked for only in a bucket that the log has.
      unfoldable pub common_ancestor :
          SyncBucketJob p → Peer p → Result (SyncError p) (Option (p.Link × ℕ))
      unfolding find_common_ancestor has exists
      common_ancestor job peer =
          let found =
            find_common_ancestor p fetch fuel (λ l. has job.bucket_id l peer.logs)
              job.target.link in
          if exists job.bucket_id peer.logs then found else ok none

      unfoldable pub load_base : Option p.Link → Result (SyncError p) (Option (Manifest p))
      load_base none = ok none
      load_base (some link) = do
        manifest ← ok_or (load link) (SyncError.download_failed link)
        ok (some manifest)

      unfoldable pub download_from :
          SyncBucketJob p
          → Option p.Link
          → Result (SyncError p) (Option (Manifest p))
          → Peer p
          → Outcome p
      unfolding receive download_manifest_chain
      download_from job stop_link (err e) peer = (peer, err e)
      download_from job stop_link (ok trusted_base) peer =
          receive trusted_base job.bucket_id
            (download_manifest_chain p encode fetch fuel job.target.link stop_link trusted_base)
            peer

      unfoldable pub sync_from :
          SyncBucketJob p → Result (SyncError p) (Option (p.Link × ℕ)) → Peer p → Outcome p
      unfolding download_from load_base exists
      sync_from job (err e) peer = (peer, err e)
      sync_from job (ok ancestor) peer =
          if exists job.bucket_id peer.logs && is_none ancestor
          then (peer, ok tt)
          else let stop_link : Option p.Link = map_option (λ a. a.0) ancestor in
            download_from job stop_link (load_base stop_link) peer

      unfoldable pub execute : SyncBucketJob p → Peer p → Outcome p
      unfolding sync_from common_ancestor
      execute job peer = sync_from job (common_ancestor job peer) peer
