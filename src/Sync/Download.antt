-- ===== src/Sync/Download.antt =====
-- What the two walks back through the manifests of a peer find, and that they end.
use jax_fs.Prelude.{
  ℕ, zero, suc, ◌<◌, ◌≡◌, ◌≢◌, refl, subst, ap, ◌⊎◌, true, false, Option, none, some, List, ◌∷◌,
  arith, is_empty, Option-cases, Bool-cases, inl, inr,
}
use jax_fs.Prelude.Results.{ok, err}
use jax_fs.Ord.{Ord}
use jax_fs.Manifest.Platform.{Platform}
use jax_fs.Manifest.Types.{Manifest}
use jax_fs.Sync.Chain.{SyncError, Linked, follow, visit, look, download_loop, find_common_ancestor}

module _ (p : Platform) ⦃lo : Ord p.Link⦄ (fetch : p.Link → Option (Manifest p)) where
  -- The links that a walk back from a link comes by.
  pub data Back : p.Link → p.Link → Type 0 where
    here : {l : p.Link} → Back l l
    back :
        {l k j : p.Link} (m : Manifest p)
        → fetch l ≡ some m
        → m.previous ≡ some k
        → Back k j
        → Back l j

  -- A number falls along every step back, so no walk goes round in a circle.
  abbrev pub Falls : (p.Link → ℕ) → Type 0
  Falls rank =
      (l k : p.Link) (m : Manifest p) → fetch l ≡ some m → m.previous ≡ some k → rank k < rank l

  -- What `find_common_ancestor` answers from a link: the link and height of a manifest in the log,
  -- behind which stands every other one in the log that it comes by; or that there is none.
  abbrev pub IsAncestor : (p.Link → List ℕ) → p.Link → Option (p.Link × ℕ) → Type 0
  IsAncestor heights_of start none = (j : p.Link) → Back start j → is_empty (heights_of j) ≡ true
  IsAncestor heights_of start (some (l, h)) =
      Back start l
      × (is_empty (heights_of l) ≡ false)
      × ((m : Manifest p) × (fetch l ≡ some m) × (m.height ≡ h))
      × ((j : p.Link) → Back start j → is_empty (heights_of j) ≡ false → Back l j)

  -- A walk from a link stays there or goes by the link before.
  pub Back-cases :
      (l j : p.Link) (m : Manifest p)
      → fetch l ≡ some m
      → Back l j
      → (l ≡ j) ⊎ ((k : p.Link) × (m.previous ≡ some k) × Back k j)
  Back-cases l j m f here = inl refl
  Back-cases l j m f (back {k = k} m' f' q b) =
      let same : m' ≡ m = cc (f, f') in inr (k, cc (same, q), b)

  -- From a link that is not in the log, the answer is that from the link before.
  IsAncestor-step :
      (heights_of : p.Link → List ℕ) (l k : p.Link) (m : Manifest p) (r : Option (p.Link × ℕ))
      → fetch l ≡ some m
      → m.previous ≡ some k
      → is_empty (heights_of l) ≡ true
      → IsAncestor heights_of k r
      → IsAncestor heights_of l r
  IsAncestor-step heights_of l k m none f q e h = λ j b. elim (Back-cases l j m f b) [
    | inl same ↦ subst (λ x. is_empty (heights_of x) ≡ true) same e
    | inr (i, q', b') ↦ let same : i ≡ k = cc (q, q') in h j (subst (λ x. Back x j) same b')
  ]
  IsAncestor-step heights_of l k m (some (x, n)) f q e (b, known, found, first) = (
    back m f q b,
    known,
    found,
    λ j c seen. elim (Back-cases l j m f c) [
      | inl same ↦ absurd (cc (ap (λ y. is_empty (heights_of y)) same, e, seen))
      | inr (i, q', c') ↦
          let same : i ≡ k = cc (q, q') in first j (subst (λ y. Back y j) same c') seen
    ],
  )

  -- A walk from a genesis that is not in the log finds nothing.
  alone :
      (heights_of : p.Link → List ℕ) (l : p.Link) (m : Manifest p)
      → fetch l ≡ some m
      → m.previous ≡ none
      → is_empty (heights_of l) ≡ true
      → IsAncestor heights_of l none
  alone heights_of l m f q e j b = elim (Back-cases l j m f b) [
    | inl same ↦ subst (λ x. is_empty (heights_of x) ≡ true) same e
    | inr (k, q', b') ↦ absurd (cc (q, q'))
  ]

  -- The common ancestor that is found is the latest link on the way back from the peer's that is in
  -- the log, with the height in its manifest; where none is found, no link on the way is in the log.
  pub find_common_ancestor_lem :
      (fuel : ℕ) (heights_of : p.Link → List ℕ) (start : p.Link) (r : Option (p.Link × ℕ))
      → find_common_ancestor p fetch fuel heights_of start ≡ ok r
      → IsAncestor heights_of start r
  unfolding find_common_ancestor look follow
  find_common_ancestor_lem zero heights_of start r e = cc
  find_common_ancestor_lem (suc fuel) heights_of start r e = elim (Option-cases (fetch start)) [
    | inl n ↦ absurd (ground (arith, n, e))
    | inr (m, f) ↦ elim (Bool-cases (is_empty (heights_of start))) [
      | inr known ↦
          let at : some (start, m.height) ≡ r = ground (arith, f, known, e) in
          subst (IsAncestor heights_of start) at (here, known, (m, f, refl), λ j b seen. b)
      | inl unknown ↦ elim (Option-cases m.previous) [
        | inl genesis ↦
            let at : none ≡ r = ground (arith, f, unknown, genesis, e) in
            subst (IsAncestor heights_of start) at (alone heights_of start m f genesis unknown)
        | inr (k, q) ↦
            IsAncestor-step heights_of start k m r f q unknown
              (find_common_ancestor_lem fuel heights_of k r (ground (arith, f, unknown, q, e)))
      ]
    ]
  ]

  -- With fuel beyond a number that falls along every step back, neither walk runs out of fuel.
  pub walks_end :
      (rank : p.Link → ℕ)
      → Falls rank
      → (fuel : ℕ) (start : p.Link) → rank start < fuel
      → ((heights_of : p.Link → List ℕ)
          → find_common_ancestor p fetch fuel heights_of start ≢ err SyncError.out_of_fuel)
        × ((stop_link : Option p.Link) (manifests : List (Linked p))
            → download_loop p fetch fuel stop_link start manifests ≢ err SyncError.out_of_fuel)
  unfolding find_common_ancestor look follow download_loop visit
  walks_end rank falls zero start h = absurd (omega arith)
  walks_end rank falls (suc fuel) start h = elim (Option-cases (fetch start)) [
    | inl n ↦ (λ heights_of e. ground (arith, n, e), λ stop_link manifests e. ground (arith, n, e))
    | inr (m, f) ↦ elim (Option-cases m.previous) [
      | inl q ↦ (
        λ heights_of e. ground (arith, f, q, e),
        λ stop_link manifests e. ground (arith, f, q, e),
      )
      | inr (k, q) ↦
          let less = falls start k m f q in
          let (ends, ends') = walks_end rank falls fuel k (omega arith) in
          (
            λ heights_of e. ground (arith, f, q, e, ends heights_of),
            λ stop_link manifests e.
                ground (arith, f, q, e, ends' stop_link ((m, start) ∷ manifests)),
          )
    ]
  ]
