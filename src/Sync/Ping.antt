-- ===== src/Sync/Ping.antt =====
-- crates/common/src/peer/protocol/messages/ping.rs and crates/common/src/peer/sync/ping_peer.rs: two
-- peers compare where they are with a bucket, and the one that is behind asks for a synchronisation.
-- The local blobs are a function from links to manifests, and the queue takes every job.
use jax_fs.Prelude.{ℕ, Option, none, some, List, [], ◌∷◌, ltb, if◌then◌else◌}
use jax_fs.Prelude.Results.{Result, ok, err}
use jax_fs.Ord.{Ord, u64_ord, ◌==◌}
use jax_fs.FilePath.{Name}
use jax_fs.BTreeMap.{keys}
use jax_fs.Manifest.Platform.{Platform}
use jax_fs.Manifest.Types.{Manifest}
use jax_fs.BucketLog.Memory.{BucketLogError, Inner, head}
use jax_fs.Sync.Job.{SyncBucketJob}

pub record PingMessage (p : Platform) : Type 0 where
  pub bucket_id : p.Uuid
  pub link : p.Link
  pub height : ℕ

pub data PingReplyStatus (p : Platform) : Type 0 where
  not_found in_sync : PingReplyStatus p
  ahead behind : p.Link → ℕ → PingReplyStatus p

pub record PingReply (p : Platform) : Type 0 where
  pub bucket_id : p.Uuid
  pub status : PingReplyStatus p

-- What a peer has at hand: its log and its blobs; and `PublicKey::from_hex`.
pub record Host (p : Platform) : Type 0 where
  pub logs : Inner p.Uuid p.Link
  pub load : p.Link → Option (Manifest p)
  pub from_hex : Name → Option p.Key

module _ (p : Platform) where
  abbrev parsed : (Name → Option p.Key) → List Name → List p.Key
  parsed from_hex [] = []
  parsed from_hex (name ∷ names) =
      let rest = parsed from_hex names in elim (from_hex name) [ none ↦ rest | some k ↦ k ∷ rest ]

  -- `get_peer_ids` of the manifest; of one that is not there, only the other peer.
  unfoldable pub peer_ids_of : Host p → p.Key → Option (Manifest p) → List p.Key
  unfolding keys
  peer_ids_of host peer none = peer ∷ []
  peer_ids_of host peer (some manifest) = parsed host.from_hex (keys manifest.shares)

  abbrev pub sync_job : p.Uuid → p.Link → ℕ → List p.Key → SyncBucketJob p
  sync_job bucket_id link height peer_ids = record {
    bucket_id = bucket_id;
    target = record { link = link; height = height; peer_ids = peer_ids };
  }

  -- The comparison of the heights; the links are not compared.
  unfoldable pub compare_heights : p.Link → ℕ → ℕ → PingReplyStatus p
  compare_heights link height other =
      if ltb height other
      then PingReplyStatus.behind link height
      else if height == other
      then PingReplyStatus.in_sync
      else PingReplyStatus.ahead link height

  unfoldable pub status_of : ℕ → Result (BucketLogError p.Link) (p.Link × ℕ) → PingReplyStatus p
  unfolding compare_heights
  status_of other (err e) = PingReplyStatus.not_found
  status_of other (ok (link, height)) = compare_heights link height other

  -- The jobs that are dispatched once the reply is sent.
  unfoldable pub handle_message_side_effect :
      Host p → p.Key → PingMessage p → PingReplyStatus p → List (SyncBucketJob p)
  unfolding peer_ids_of
  handle_message_side_effect host sender ping (PingReplyStatus.behind our_link our_height) =
      sync_job ping.bucket_id ping.link ping.height (peer_ids_of host sender (host.load our_link))
      ∷ []
  handle_message_side_effect host sender ping PingReplyStatus.not_found =
      sync_job ping.bucket_id ping.link ping.height (sender ∷ []) ∷ []
  handle_message_side_effect host sender ping _ = []

  -- The peers named by our version, if we have one.
  unfoldable pub known_peers :
      Host p → p.Key → Result (BucketLogError p.Link) (p.Link × ℕ) → List p.Key
  unfolding peer_ids_of
  known_peers host recipient (err e) = recipient ∷ []
  known_peers host recipient (ok (our_link, our_height)) =
      peer_ids_of host recipient (host.load our_link)

module _ (p : Platform) ⦃uo : Ord p.Uuid⦄ ⦃lo : Ord p.Link⦄ where
  unfoldable pub handle_message : Host p → PingMessage p → PingReply p
  unfolding status_of
  handle_message host ping = record {
    bucket_id = ping.bucket_id;
    status = status_of p ping.height (head ping.bucket_id none host.logs);
  }

  unfoldable pub reply_jobs : Host p → p.Key → p.Uuid → PingReplyStatus p → List (SyncBucketJob p)
  unfolding known_peers
  reply_jobs host recipient bucket_id (PingReplyStatus.ahead link height) =
      sync_job p bucket_id link height
        (known_peers p host recipient (head bucket_id none host.logs))
      ∷ []
  reply_jobs host recipient bucket_id _ = []

  -- The jobs that are dispatched on a reply.
  unfoldable pub handle_reply : Host p → p.Key → PingReply p → List (SyncBucketJob p)
  unfolding reply_jobs
  handle_reply host recipient pong = reply_jobs host recipient pong.bucket_id pong.status

  -- A ping with our head, up to the end on both sides: what the peer dispatches, and what we do.
  unfoldable pub send_ping :
      Host p
      → p.Key
      → Host p
      → p.Key
      → PingMessage p
      → List (SyncBucketJob p) × List (SyncBucketJob p)
  unfolding handle_message handle_message_side_effect handle_reply
  send_ping ours our_key theirs their_key ping =
      let pong = handle_message theirs ping in
      (
        handle_message_side_effect p theirs our_key ping pong.status,
        handle_reply ours their_key pong,
      )

  abbrev pub ping_with :
      Host p
      → p.Key
      → Host p
      → p.Key
      → p.Uuid
      → Result (BucketLogError p.Link) (p.Link × ℕ)
      → List (SyncBucketJob p) × List (SyncBucketJob p)
  ping_with ours our_key theirs their_key bucket_id (err e) = ([], [])
  ping_with ours our_key theirs their_key bucket_id (ok (link, height)) =
      send_ping ours our_key theirs their_key
        (record { bucket_id = bucket_id; link = link; height = height })

  -- `execute` of a job that pings a peer; without a head of our own no ping is sent.
  unfoldable pub ping_peer :
      Host p → p.Key → Host p → p.Key → p.Uuid → List (SyncBucketJob p) × List (SyncBucketJob p)
  unfolding send_ping
  ping_peer ours our_key theirs their_key bucket_id =
      ping_with ours our_key theirs their_key bucket_id (head bucket_id none ours.logs)

  -- Where a job leads: the link and the height that it asks for.
  abbrev pub goals : List (SyncBucketJob p) → List (p.Link × ℕ)
  goals [] = []
  goals (job ∷ jobs) = (job.target.link, job.target.height) ∷ goals jobs
