-- ===== src/Sync/Applied.antt =====
-- What `apply_manifest_chain` does to the log.
use jax_fs.Prelude.{◌≡◌, ◌≢◌, refl, ◌∙◌, ap, List, ◌∷◌}
use jax_fs.Prelude.Results.{Result, ok, err}
use jax_fs.Ord.{Ord, u64_ord}
use jax_fs.Ord.Lex.{lex_ord}
use jax_fs.Manifest.Platform.{Platform}
use jax_fs.Manifest.Types.{Manifest, is_published}
use jax_fs.BucketLog.Memory.{BucketLogError, Inner, append, has}
use jax_fs.BucketLog.Append.{append-has_other}
use jax_fs.Sync.Chain.{Linked}
use jax_fs.Sync.Job.{Peer, after_append, apply_manifest_chain}

module _ (p : Platform) ⦃uo : Ord p.Uuid⦄ ⦃lo : Ord p.Link⦄ (default_link : p.Link) where
  -- The log after the append of a manifest.
  abbrev pub appended : p.Uuid → Linked p → Inner p.Uuid p.Link → Inner p.Uuid p.Link
  appended bucket_id (m, l) logs =
      (append default_link bucket_id m.name l m.previous m.height (is_published p m) logs).0

  logs-after_append :
      (m : Manifest p) (jobs : List _)
      (r : Inner p.Uuid p.Link × Result (BucketLogError p.Link) (Unit {0}))
      → (after_append p m jobs r).0.logs ≡ r.0
  unfolding after_append
  logs-after_append m jobs (logs, ok u) = refl
  logs-after_append m jobs (logs, err e) = refl

  pub logs-apply_manifest_chain :
      (bucket_id : p.Uuid) (first : Linked p) (rest : List (Linked p)) (peer : Peer p)
      → (apply_manifest_chain p default_link bucket_id (first ∷ rest) peer).0.logs
        ≡ appended bucket_id first peer.logs
  unfolding apply_manifest_chain
  logs-apply_manifest_chain bucket_id (m, l) rest peer = logs-after_append m peer.jobs _

  -- Of a chain only the first manifest reaches the log: for every other link, the target of the job
  -- among them, the log lists the heights that it listed before.
  pub apply_manifest_chain_first_only :
      (bucket_id : p.Uuid) (first : Linked p) (rest : List (Linked p)) (peer : Peer p) (i : p.Uuid)
      (l : p.Link)
      → l ≢ first.1
      → has i l (apply_manifest_chain p default_link bucket_id (first ∷ rest) peer).0.logs
        ≡ has i l peer.logs
  apply_manifest_chain_first_only bucket_id (m, k) rest peer i l ne =
      ap (has i l) (logs-apply_manifest_chain bucket_id (m, k) rest peer)
      ∙ append-has_other default_link bucket_id m.name k m.previous m.height (is_published p m)
          peer.logs i l ne
