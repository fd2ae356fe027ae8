-- ===== src/Sync/Fetched.antt =====
-- The chain that `download_manifest_chain` returns: its manifests follow each other up to the link
-- of the peer, rest on the common ancestor or a genesis, and each is written by an owner.
use jax_fs.Prelude.{
  ℕ, zero, suc, ◌≡◌, refl, sym, subst, ap, ◌⊎◌, true, false, Option, none, some, List, [], ◌∷◌,
  arith, Option-cases, Bool-cases, inl, inr,
}
use jax_fs.Prelude.Results.{Result, ok, err}
use jax_fs.Ord.{Ord, eq_of_==}
use jax_fs.Manifest.Platform.{Platform}
use jax_fs.Manifest.Types.{Manifest, is_signed}
use jax_fs.Sync.Provenance.{
  ProvenanceError, ProvenanceResult, valid, not_authorized, unsigned_legacy, verify_author,
}
use jax_fs.Sync.Authors.{
  WrittenByOwner, verify_author_valid_iff, verify_author_legacy_iff, author-unauthorized,
}
use jax_fs.Sync.Chain.{
  SyncError, Linked, follow, visit, is_stop, download_loop, blame, validate,
  download_manifest_chain,
}

is_stop-some :
    {Link : Type 0} ⦃lo : Ord Link⦄ (stop_link : Option Link) (l : Link)
    → is_stop stop_link l ≡ true
    → stop_link ≡ some l
unfolding is_stop
is_stop-some none l e = cc
is_stop-some (some s) l e = ap some (sym (eq_of_== l s e))

module _ (p : Platform) (fetch : p.Link → Option (Manifest p)) (tip : p.Link) where
  -- Each manifest is the one under its link, and names the link before it; the last link is the tip.
  abbrev pub IsChain : List (Linked p) → Type 0
  IsChain [] = Unit
  IsChain ((m, l) ∷ []) = (fetch l ≡ some m) × (l ≡ tip)
  IsChain ((m, l) ∷ (n, k) ∷ rest) =
      (fetch l ≡ some m) × (n.previous ≡ some l) × IsChain ((n, k) ∷ rest)

  -- The first manifest of the chain is a genesis or names the link to stop at; where there is none,
  -- the tip is that link.
  abbrev pub RestsOn : Option p.Link → List (Linked p) → Type 0
  RestsOn stop_link [] = stop_link ≡ some tip
  RestsOn stop_link ((m, l) ∷ rest) =
      (m.previous ≡ none) ⊎ ((s : p.Link) × (stop_link ≡ some s) × (m.previous ≡ some s))

  -- Where a walk stands that has collected a chain.
  abbrev StandsAt : List (Linked p) → p.Link → Type 0
  StandsAt [] current = current ≡ tip
  StandsAt ((m, l) ∷ rest) current = m.previous ≡ some current

  IsChain-extend :
      (current : p.Link) (m : Manifest p) (ms : List (Linked p))
      → fetch current ≡ some m
      → IsChain ms
      → StandsAt ms current
      → IsChain ((m, current) ∷ ms)
  IsChain-extend current m [] f c s = (f, s)
  IsChain-extend current m ((n, k) ∷ rest) f c s = (f, s, c)

  stopped-RestsOn :
      (stop_link : Option p.Link) (current : p.Link) (ms : List (Linked p))
      → stop_link ≡ some current
      → StandsAt ms current
      → RestsOn stop_link ms
  stopped-RestsOn stop_link current [] e s = cc (e, s)
  stopped-RestsOn stop_link current ((m, l) ∷ rest) e s = inr (current, e, s)

  module _ ⦃lo : Ord p.Link⦄ (stop_link : Option p.Link) where
    download_loop-IsChain :
        (fuel : ℕ) (current : p.Link) (acc ms : List (Linked p))
        → IsChain acc
        → StandsAt acc current
        → download_loop p fetch fuel stop_link current acc ≡ ok ms
        → IsChain ms × RestsOn stop_link ms
    unfolding download_loop visit follow
    download_loop-IsChain zero current acc ms c s e = cc
    download_loop-IsChain (suc fuel) current acc ms c s e = elim (Option-cases (fetch current)) [
      | inl n ↦ absurd (ground (arith, n, e))
      | inr (m, f) ↦ elim (Bool-cases (is_stop stop_link current)) [
        | inl t ↦
            let at : acc ≡ ms = ground (arith, f, t, e) in
            subst (λ x. IsChain x × RestsOn stop_link x) at
              (c, stopped-RestsOn stop_link current acc (is_stop-some stop_link current t) s)
        | inr on ↦
            let longer : IsChain ((m, current) ∷ acc) = IsChain-extend current m acc f c s in
            elim (Option-cases m.previous) [
              | inl q ↦
                  let at : (m, current) ∷ acc ≡ ms = ground (arith, f, on, q, e) in
                  subst (λ x. IsChain x × RestsOn stop_link x) at (longer, inl q)
              | inr (k, q) ↦
                  download_loop-IsChain fuel k ((m, current) ∷ acc) ms longer q
                    (ground (arith, f, on, q, e))
            ]
      ]
    ]

module _ (p : Platform) (encode : Manifest p → Option p.Bytes) where
  -- Each manifest is unsigned, or signed by an owner of the manifest before it.
  abbrev pub IsAuthored : Option (Manifest p) → List (Linked p) → Type 0
  IsAuthored previous [] = Unit
  IsAuthored previous ((m, l) ∷ rest) =
      ((is_signed p m ≡ false) ⊎ WrittenByOwner p encode m previous) × IsAuthored (some m) rest

  validate-IsAuthored :
      (previous : Option (Manifest p)) (ms : List (Linked p))
      → validate p encode previous ms ≡ ok tt
      → IsAuthored previous ms
  unfolding validate
  validate-IsAuthored previous [] e = tt
  validate-IsAuthored previous ((m, l) ∷ rest) e =
      by_result (verify_author p encode m previous) (validate-IsAuthored (some m) rest) refl
    where
      by_result :
          (r : Result (ProvenanceError p) ProvenanceResult)
          → (validate p encode (some m) rest ≡ ok tt → IsAuthored (some m) rest)
          → verify_author p encode m previous ≡ r
          → ((is_signed p m ≡ false) ⊎ WrittenByOwner p encode m previous)
            × IsAuthored (some m) rest
      by_result (err x) next q = absurd (unfold blame in ground (arith, q, e))
      by_result (ok valid) next q = (
        inr ((verify_author_valid_iff p encode m previous).0 q),
        next (unfold blame in ground (arith, q, e)),
      )
      by_result (ok unsigned_legacy) next q = (
        inl ((verify_author_legacy_iff p encode m previous).0 q),
        next (unfold blame in ground (arith, q, e)),
      )
      by_result (ok not_authorized) next q = absurd (author-unauthorized p encode m previous q)

module _ (p : Platform) ⦃lo : Ord p.Link⦄ (encode : Manifest p → Option p.Bytes)
    (fetch : p.Link → Option (Manifest p)) where
  -- A chain that is returned leads up to the link of the peer, link by link, from a genesis or from
  -- the link to stop at; and each of its manifests is unsigned, or signed by an owner of the one
  -- before it, the first by an owner of the trusted base or, without one, of its own.
  pub download_manifest_chain_lem :
      (fuel : ℕ) (start_link : p.Link) (stop_link : Option p.Link)
      (trusted_base : Option (Manifest p)) (ms : List (Linked p))
      → download_manifest_chain p encode fetch fuel start_link stop_link trusted_base ≡ ok ms
      → IsChain p fetch start_link ms
        × RestsOn p fetch start_link stop_link ms
        × IsAuthored p encode trusted_base ms
  unfolding download_manifest_chain
  download_manifest_chain_lem fuel start_link stop_link trusted_base ms e =
      by_loop (download_loop p fetch fuel stop_link start_link []) refl
    where
      by_loop :
          (r : Result (SyncError p) (List (Linked p)))
          → download_loop p fetch fuel stop_link start_link [] ≡ r
          → IsChain p fetch start_link ms
            × RestsOn p fetch start_link stop_link ms
            × IsAuthored p encode trusted_base ms
      by_loop (err x) q = absurd (ground (arith, q, e))
      by_loop (ok found) q =
          let same : found ≡ ms = ground (arith, q, e) in
          let fine : validate p encode trusted_base found ≡ ok tt = ground (arith, q, e) in
          let (c, r) =
            download_loop-IsChain p fetch start_link stop_link fuel start_link [] ms tt refl
              (cc (q, same)) in
          (
            c,
            r,
            subst (IsAuthored p encode trusted_base) same
                (validate-IsAuthored p encode trusted_base found fine),
          )
