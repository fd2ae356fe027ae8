-- ===== src/Sync/Pinged.antt =====
-- crates/common/src/peer/protocol/messages/ping.rs: what a ping makes the two peers do.
use jax_fs.Prelude.{
  ℕ, ◌≡◌, refl, ap, ◌∙◌, arith, Bool-cases, inl, inr, true, false, none, [], ◌∷◌, ltb,
  if◌then◌else◌,
}
use jax_fs.Prelude.Results.{ok}
use jax_fs.Ord.{Ord, u64_ord, ◌==◌, eq_of_==, ==_refl}
use jax_fs.Manifest.Platform.{Platform}
use jax_fs.BucketLog.Memory.{head}
use jax_fs.Sync.Ping.{
  PingMessage, Host, goals, compare_heights, status_of, handle_message, handle_message_side_effect,
  reply_jobs, handle_reply, send_ping, ping_with, ping_peer,
}

module _ (p : Platform) ⦃uo : Ord p.Uuid⦄ ⦃lo : Ord p.Link⦄ where
  their_goals :
      (theirs : Host p) (sender : p.Key) (ping : PingMessage p) (link : p.Link) (height : ℕ)
      → goals p (
          handle_message_side_effect p theirs sender ping
            (compare_heights p link height ping.height))
        ≡ (if ltb height ping.height then (ping.link, ping.height) ∷ [] else [])
  unfolding compare_heights handle_message_side_effect
  their_goals theirs sender ping link height = elim (Bool-cases (ltb height ping.height)) [
    | inl a ↦ rw a refl
    | inr b ↦ elim (Bool-cases (height == ping.height)) [
      | inl c ↦ rw (b, c) refl
      | inr d ↦ rw (b, d) refl
    ]
  ]

  our_goals :
      (ours : Host p) (recipient : p.Key) (bucket_id : p.Uuid) (link : p.Link) (height other : ℕ)
      → goals p (reply_jobs p ours recipient bucket_id (compare_heights p link height other))
        ≡ (if ltb other height then (link, height) ∷ [] else [])
  unfolding compare_heights reply_jobs
  our_goals ours recipient bucket_id link height other = elim (Bool-cases (ltb height other)) [
    | inl a ↦ let n : ltb other height ≡ false = ground (arith, a) in rw (a, n) refl
    | inr b ↦ elim (Bool-cases (height == other)) [
      | inl c ↦
          let same = eq_of_== height other c in
          let n : ltb other height ≡ false = ground (arith, same) in rw (b, c, n) refl
      | inr d ↦
          let n : ltb other height ≡ true = ground (arith, b, d, ==_refl other) in rw (b, d, n) refl
    ]
  ]

  -- When both peers have a head of the bucket, a ping makes exactly the peer with the lower head
  -- dispatch a job, one that asks for the head of the other; with heads at the same height neither
  -- does, also when their links differ.
  pub ping_peer_lem :
      (ours theirs : Host p) (our_key their_key : p.Key) (bucket_id : p.Uuid)
      (our_link their_link : p.Link) (our_height their_height : ℕ)
      → head bucket_id none ours.logs ≡ ok (our_link, our_height)
      → head bucket_id none theirs.logs ≡ ok (their_link, their_height)
      → (goals p (ping_peer p ours our_key theirs their_key bucket_id).0
          ≡ (if ltb their_height our_height then (our_link, our_height) ∷ [] else []))
        × (goals p (ping_peer p ours our_key theirs their_key bucket_id).1
            ≡ (if ltb our_height their_height then (their_link, their_height) ∷ [] else []))
  ping_peer_lem ours theirs our_key their_key bucket_id our_link their_link our_height their_height
        e f =
      let ping : PingMessage p = record {
        bucket_id = bucket_id;
        link = our_link;
        height = our_height;
      } in
      let sent : ping_peer p ours our_key theirs their_key bucket_id
          ≡ send_ping p ours our_key theirs their_key ping =
        unfold ping_peer in ap (ping_with p ours our_key theirs their_key bucket_id) e in
      let status : (handle_message p theirs ping).status
          ≡ compare_heights p their_link their_height our_height =
        unfold handle_message in unfold status_of in ap (status_of p our_height) f in
      (
        ap (λ x. goals p x.0) sent
            ∙ unfold send_ping in
              ap (λ x. goals p (handle_message_side_effect p theirs our_key ping x)) status
              ∙ their_goals theirs our_key ping their_link their_height,
        ap (λ x. goals p x.1) sent
            ∙ unfold send_ping in
              unfold handle_reply in
              ap (λ x. goals p (reply_jobs p ours their_key bucket_id x)) status
              ∙ our_goals ours their_key bucket_id their_link their_height our_height,
      )
