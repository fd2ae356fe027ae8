-- ===== src/Sync/Authors.antt =====
-- When a manifest counts as written by an owner.
use jax_fs.Prelude.{
  ◌≡◌, unwrap_or, map_option, refl, ◌≢◌, ◌↔◌, true, false, Option, none, some, arith, Option-cases,
  Bool-cases, inl, inr,
}
use jax_fs.Prelude.Results.{ok}
use jax_fs.Ord.{u64_ord}
use jax_fs.Ord.Lex.{lex_ord}
use jax_fs.BTreeMap.{get}
use jax_fs.Manifest.Platform.{Platform}
use jax_fs.Manifest.Types.{Manifest, Shares, Share, PrincipalRole, is_signed, same_role}
use jax_fs.Manifest.Signing.{verify_signature}
use jax_fs.Sync.Provenance.{
  ProvenanceResult, check_signature, check_shares, check_writer, verify_author,
}

module _ (p : Platform) where
  writer_cases :
      (a : p.Key) (shares : Shares p)
      → check_writer p (some a) shares ≡ ok ProvenanceResult.valid ↔ (
          (share : Share p) × (get (p.to_hex a) shares ≡ some share)
          × (share.principal.role ≡ PrincipalRole.owner))
  unfolding check_writer same_role
  writer_cases a shares = elim (Option-cases (get (p.to_hex a) shares)) [
    | inl n ↦ (λ e. absurd (ground (arith, n)), λ (share, f, role). cc)
    | inr (found, s) ↦ (λ e. (found, s, ground (arith, s)), λ (share, f, role). ground (arith, s))
  ]

module _ (p : Platform) (encode : Manifest p → Option p.Bytes) where
  -- The shares that a manifest is judged by.
  abbrev pub prior_shares : Manifest p → Option (Manifest p) → Shares p
  prior_shares m previous = unwrap_or (map_option (λ q. q.shares) previous) m.shares

  check_shares-eq :
      (m : Manifest p) (previous : Option (Manifest p))
      → check_shares p m previous ≡ prior_shares m previous
  unfolding check_shares
  check_shares-eq m none = refl
  check_shares-eq m (some q) = refl

  -- The manifest carries a signature of its author over everything else in it, and the author is an
  -- owner in the shares of the manifest before, or in its own where there is none before.
  abbrev pub WrittenByOwner : Manifest p → Option (Manifest p) → Type 0
  WrittenByOwner m previous =
      (a : p.Key) × (s : p.Signature) × (b : p.Bytes) × (share : Share p) × (m.author ≡ some a)
      × (m.signature ≡ some s)
      × (encode (record m { signature = none }) ≡ some b)
      × (p.verify_bytes a b s ≡ true)
      × (get (p.to_hex a) (prior_shares m previous) ≡ some share)
      × (share.principal.role ≡ PrincipalRole.owner)

  written_by_owner :
      (m : Manifest p) (previous : Option (Manifest p))
      → WrittenByOwner m previous
      → verify_author p encode m previous ≡ ok ProvenanceResult.valid
  unfolding verify_author is_signed verify_signature check_signature
  written_by_owner m previous (a, s, b, share, ea, es, eb, v, g, role) =
      let w =
        (writer_cases p a (check_shares p m previous)).1
          (share, rw (check_shares-eq m previous) g, role) in
      ground (arith, ea, es, eb, v, w)

  valid_author :
      (m : Manifest p) (previous : Option (Manifest p))
      → verify_author p encode m previous ≡ ok ProvenanceResult.valid
      → WrittenByOwner m previous
  unfolding verify_author is_signed verify_signature check_signature
  valid_author m previous e = elim (Option-cases m.author) [
    | inl n ↦ absurd (ground (arith, n))
    | inr (a, ea) ↦ elim (Option-cases m.signature) [
      | inl n ↦ absurd (ground (arith, ea, n))
      | inr (s, es) ↦ elim (Option-cases (encode (record m { signature = none }))) [
        | inl n ↦ absurd (ground (arith, ea, es, n))
        | inr (b, eb) ↦ elim (Bool-cases (p.verify_bytes a b s)) [
          | inr f ↦ absurd (ground (arith, ea, es, eb, f))
          | inl v ↦
              let w : check_writer p (some a) (check_shares p m previous)
                  ≡ ok ProvenanceResult.valid =
                ground (arith, ea, es, eb, v) in
              let (share, g, role) = (writer_cases p a (check_shares p m previous)).0 w in
              (a, s, b, share, ea, es, eb, v, rw (← check_shares-eq m previous) g, role)
        ]
      ]
    ]
  ]

  -- A signed manifest is valid exactly when its signature verifies and its author is an owner in the
  -- manifest before, or in itself where there is none before.
  pub verify_author_valid_iff :
      (m : Manifest p) (previous : Option (Manifest p))
      → verify_author p encode m previous ≡ ok ProvenanceResult.valid ↔ WrittenByOwner m previous
  verify_author_valid_iff m previous = (valid_author m previous, written_by_owner m previous)

  -- A manifest is let in as a legacy one exactly when it lacks its author or its signature.
  pub verify_author_legacy_iff :
      (m : Manifest p) (previous : Option (Manifest p))
      → verify_author p encode m previous ≡ ok ProvenanceResult.unsigned_legacy
        ↔ is_signed p m ≡ false
  unfolding verify_author check_writer
  verify_author_legacy_iff m previous = elim (Bool-cases (is_signed p m)) [
    | inr f ↦ (λ e. f, λ e. ground (arith, f))
    | inl t ↦ (λ e. absurd (ground (arith, t)), λ e. cc)
  ]

  -- The authorship alone never finds that a manifest is not for this peer.
  pub author-unauthorized :
      (m : Manifest p) (previous : Option (Manifest p))
      → verify_author p encode m previous ≢ ok ProvenanceResult.not_authorized
  unfolding verify_author check_writer
  author-unauthorized m previous e = ground (arith, e)
