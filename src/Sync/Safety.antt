-- ===== src/Sync/Safety.antt =====
-- What the job may do to the log of the peer.
use jax_fs.Prelude.{
  ℕ, ◌≡◌, ◌≢◌, refl, sym, subst, ◌⊎◌, true, false, ◌&&◌, Option, none, some, List, [], ◌∷◌, arith,
  any, is_empty, Option-cases, Bool-cases, inl, inr, is_none, map_option,
}
use jax_fs.Prelude.Results.{Result, ok, err}
use jax_fs.Ord.{Ord, u64_ord, ◌==◌}
use jax_fs.Ord.Lex.{lex_ord}
use jax_fs.BTreeMap.{keys}
use jax_fs.Manifest.Platform.{Platform}
use jax_fs.Manifest.Types.{Manifest, is_published}
use jax_fs.BucketLog.Memory.{Inner, exists, has}
use jax_fs.BucketLog.Valid.{IsValid}
use jax_fs.BucketLog.Append.{append-IsValid}
use jax_fs.Sync.Provenance.{
  ProvenanceError, ProvenanceResult, valid, not_authorized, unsigned_legacy, verify_provenance,
}
use jax_fs.Sync.Chain.{SyncError, Linked, download_manifest_chain}
use jax_fs.Sync.Job.{
  Peer, SyncBucketJob, latest, apply_if_valid, receive, common_ancestor, load_base, download_from,
  sync_from, execute,
}
use jax_fs.Sync.Download.{find_common_ancestor_lem}
use jax_fs.Sync.Fetched.{IsChain, RestsOn, IsAuthored, download_manifest_chain_lem}
use jax_fs.Sync.Applied.{appended, logs-apply_manifest_chain}

module _ (p : Platform) ⦃uo : Ord p.Uuid⦄ ⦃lo : Ord p.Link⦄ (default_link : p.Link) where
  module _ (encode : Manifest p → Option p.Bytes) (our_pub_key : p.Key) where
    -- What the chain is judged by: nothing, for a bucket that the log has not; or the local manifest
    -- under a link that is in the log.
    abbrev pub IsTrusted :
        (p.Link → Option (Manifest p))
        → p.Uuid
        → Inner p.Uuid p.Link
        → Option p.Link
        → Option (Manifest p)
        → Type 0
    IsTrusted load bucket_id logs none base = (base ≡ none) × (exists bucket_id logs ≡ false)
    IsTrusted load bucket_id logs (some s) base =
        ((m : Manifest p) × (load s ≡ some m) × (base ≡ some m))
        × (is_empty (has bucket_id s logs) ≡ false)

    -- A chain for this peer, and the log after its first manifest.
    abbrev pub Accepted :
        (p.Link → Option (Manifest p))
        → (p.Link → Option (Manifest p))
        → p.Uuid
        → p.Link
        → Inner p.Uuid p.Link
        → Inner p.Uuid p.Link
        → Type 0
    Accepted fetch load bucket_id tip logs logs' =
        (base : Option (Manifest p)) × (stop_link : Option p.Link) × (first : Linked p)
        × (rest : List (Linked p)) × IsTrusted load bucket_id logs stop_link base
        × IsChain p fetch tip (first ∷ rest)
        × RestsOn p fetch tip stop_link (first ∷ rest)
        × IsAuthored p encode base (first ∷ rest)
        × (any (λ key_hex. key_hex == p.to_hex our_pub_key) (keys (latest p first rest).shares)
            ≡ true)
        × (logs' ≡ appended p default_link bucket_id first logs)

    abbrev pub Safe :
        (p.Link → Option (Manifest p))
        → (p.Link → Option (Manifest p))
        → p.Uuid
        → p.Link
        → Inner p.Uuid p.Link
        → Inner p.Uuid p.Link
        → Type 0
    Safe fetch load bucket_id tip logs logs' =
        (logs' ≡ logs) ⊎ Accepted fetch load bucket_id tip logs logs'

    -- Provenance is judged only where our key is in the shares.
    listed_of_provenance :
        (m : Manifest p) (previous : Option (Manifest p)) (r : ProvenanceResult)
        → verify_provenance p encode our_pub_key m previous ≡ ok r
        → r ≢ not_authorized
        → any (λ key_hex. key_hex == p.to_hex our_pub_key) (keys m.shares) ≡ true
    unfolding verify_provenance
    listed_of_provenance m previous r e ne =
        elim (Bool-cases (any (λ key_hex. key_hex == p.to_hex our_pub_key) (keys m.shares))) [
          | inl t ↦ t
          | inr f ↦ absurd (ne (ground (arith, f, e)))
        ]

    module _ (fetch load : p.Link → Option (Manifest p)) (bucket_id : p.Uuid) (tip : p.Link)
        (peer : Peer p) where
      apply_if_valid-Safe :
          (base : Option (Manifest p)) (stop_link : Option p.Link) (first : Linked p)
          (rest : List (Linked p))
          → IsTrusted load bucket_id peer.logs stop_link base
          → IsChain p fetch tip (first ∷ rest)
          → RestsOn p fetch tip stop_link (first ∷ rest)
          → IsAuthored p encode base (first ∷ rest)
          → (r : Result (ProvenanceError p) ProvenanceResult)
          → verify_provenance p encode our_pub_key (latest p first rest) base ≡ r
          → Safe fetch load bucket_id tip peer.logs
              (apply_if_valid p default_link r bucket_id (first ∷ rest) peer).0.logs
      unfolding apply_if_valid
      apply_if_valid-Safe base stop_link first rest t c s a (err x) q = inl refl
      apply_if_valid-Safe base stop_link first rest t c s a (ok not_authorized) q = inl refl
      apply_if_valid-Safe base stop_link first rest t c s a (ok valid) q = inr (
        base,
        stop_link,
        first,
        rest,
        t,
        c,
        s,
        a,
        listed_of_provenance (latest p first rest) base valid q (λ e. cc),
        logs-apply_manifest_chain p default_link bucket_id first rest peer,
      )
      apply_if_valid-Safe base stop_link first rest t c s a (ok unsigned_legacy) q = inr (
        base,
        stop_link,
        first,
        rest,
        t,
        c,
        s,
        a,
        listed_of_provenance (latest p first rest) base unsigned_legacy q (λ e. cc),
        logs-apply_manifest_chain p default_link bucket_id first rest peer,
      )

      receive-Safe :
          (base : Option (Manifest p)) (stop_link : Option p.Link)
          (r : Result (SyncError p) (List (Linked p)))
          → IsTrusted load bucket_id peer.logs stop_link base
          → ((ms : List (Linked p))
              → r ≡ ok ms
              → IsChain p fetch tip ms
                × RestsOn p fetch tip stop_link ms
                × IsAuthored p encode base ms)
          → Safe fetch load bucket_id tip peer.logs
              (receive p default_link encode our_pub_key base bucket_id r peer).0.logs
      unfolding receive
      receive-Safe base stop_link (err x) t h = inl refl
      receive-Safe base stop_link (ok []) t h = inl refl
      receive-Safe base stop_link (ok (first ∷ rest)) t h =
          let (c, s, a) = h (first ∷ rest) refl in
          apply_if_valid-Safe base stop_link first rest t c s a
            (verify_provenance p encode our_pub_key (latest p first rest) base) refl

    module _ (fetch load : p.Link → Option (Manifest p)) (fuel : ℕ) (job : SyncBucketJob p)
        (peer : Peer p) where
      download_from-Safe :
          (stop_link : Option p.Link) (base : Result (SyncError p) (Option (Manifest p)))
          → ((b : Option (Manifest p))
              → base ≡ ok b
              → IsTrusted load job.bucket_id peer.logs stop_link b)
          → Safe fetch load job.bucket_id job.target.link peer.logs
              (download_from p default_link encode our_pub_key fetch load fuel job stop_link base
                peer).0.logs
      unfolding download_from
      download_from-Safe stop_link (err x) h = inl refl
      download_from-Safe stop_link (ok base) h =
          receive-Safe fetch load job.bucket_id job.target.link peer base stop_link
            (download_manifest_chain p encode fetch fuel job.target.link stop_link base)
            (h base refl)
            (download_manifest_chain_lem p encode fetch fuel job.target.link stop_link base)

      -- A common ancestor is in the log.
      ancestor_known :
          (s : p.Link) (h : ℕ)
          → common_ancestor p default_link encode our_pub_key fetch load fuel job peer
            ≡ ok (some (s, h))
          → is_empty (has job.bucket_id s peer.logs) ≡ false
      unfolding common_ancestor
      ancestor_known s h e = elim (Bool-cases (exists job.bucket_id peer.logs)) [
        | inr f ↦ absurd (ground (arith, f, e))
        | inl t ↦
            (find_common_ancestor_lem p fetch fuel (λ l. has job.bucket_id l peer.logs)
              job.target.link (some (s, h)) (ground (arith, t, e))).1
      ]

      load_base-IsTrusted :
          (ancestor : Option (p.Link × ℕ)) (b : Option (Manifest p))
          → common_ancestor p default_link encode our_pub_key fetch load fuel job peer ≡ ok ancestor
          → (exists job.bucket_id peer.logs && is_none ancestor) ≡ false
          → load_base p default_link encode our_pub_key fetch load fuel
              (map_option (λ a. a.0) ancestor)
            ≡ ok b
          → IsTrusted load job.bucket_id peer.logs (map_option (λ a. a.0) ancestor) b
      unfolding load_base
      load_base-IsTrusted none b e f q = (ground (arith, q), ground (arith, f))
      load_base-IsTrusted (some (s, h)) b e f q = elim (Option-cases (load s)) [
        | inl n ↦ absurd (ground (arith, n, q))
        | inr (m, l) ↦ ((m, l, ground (arith, l, q)), ancestor_known s h e)
      ]

      sync_from-Safe :
          (ancestor : Result (SyncError p) (Option (p.Link × ℕ)))
          → common_ancestor p default_link encode our_pub_key fetch load fuel job peer ≡ ancestor
          → Safe fetch load job.bucket_id job.target.link peer.logs
              (sync_from p default_link encode our_pub_key fetch load fuel job ancestor peer).0.logs
      unfolding sync_from
      sync_from-Safe (err x) e = inl refl
      sync_from-Safe (ok ancestor) e =
          elim (Bool-cases (exists job.bucket_id peer.logs && is_none ancestor)) [
            | inl t ↦ rw t (inl refl)
            | inr f ↦ rw f (download_from-Safe _ _ λ b q. load_base-IsTrusted ancestor b e f q)
          ]

      -- Whatever the peers serve, the job leaves the log as it was; or it has downloaded a chain
      -- that leads link by link up to the target, from a genesis or from a link in the log, each of
      -- whose manifests is unsigned or signed by an owner of the one before it (the first by an owner
      -- of the local manifest under that link, or of its own where the log has not the bucket), and
      -- whose latest manifest lists our key, and the log is what the append of the first manifest of
      -- the chain makes of it.
      pub execute-Safe :
          Safe fetch load job.bucket_id job.target.link peer.logs
            (execute p default_link encode our_pub_key fetch load fuel job peer).0.logs
      unfolding execute
      execute-Safe = sync_from-Safe _ refl

      -- The job keeps the invariant of the log.
      pub execute-IsValid :
          IsValid peer.logs
          → IsValid (execute p default_link encode our_pub_key fetch load fuel job peer).0.logs
      execute-IsValid v = elim execute-Safe [
        | inl same ↦ subst IsValid (sym same) v
        | inr (base, stop_link, (m, l), rest, t, c, s, a, k, same) ↦ subst IsValid (sym same) (
            append-IsValid default_link job.bucket_id m.name l m.previous m.height
              (is_published p m) peer.logs v)
      ]
