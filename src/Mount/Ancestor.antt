-- ===== src/Mount/Ancestor.antt =====
-- What the walks of two mounts along their chains have in common.
use jax_fs.Prelude.{
  ℕ, zero, suc, ◌≡◌, ◌≢◌, refl, subst, ap, sym, ◌∙◌, ◌⊎◌, true, false, Option, none, some, arith,
  Option-cases, Bool-cases, inl, inr, if◌then◌else◌,
}
use jax_fs.Prelude.Results.{ok, to_option, Result-cases}
use jax_fs.Ord.{Ord, ◌==◌, ==_refl, eq_of_==}
use jax_fs.BTreeMap.{get, contains_key, get-insert}
use jax_fs.Manifest.Platform.{Platform}
use jax_fs.Manifest.Types.{Manifest}
use jax_fs.Mount.Pins.{Pins, pin, is_pinned, new_pins}
use jax_fs.Mount.Vault.{Vault}
use jax_fs.Mount.Blobs.{get_manifest_from_blobs}
use jax_fs.Mount.Session.{MountInner}
use jax_fs.Mount.Chain.{seek_link, chain_links, first_link_in, find_mount_ancestor}
use jax_fs.Sync.Chain.{follow}
use jax_fs.Sync.Download.{Back, here, back, Back-cases}

is_pinned-pin :
    {A : Type 0} ⦃o : Ord A⦄ (j k : A) (set : Pins A)
    → is_pinned j (pin k set) ≡ (if j == k then true else is_pinned j set)
unfolding is_pinned pin contains_key
is_pinned-pin j k set = let f = get-insert k j tt set in ground (arith, f)

pin-cases :
    {A : Type 0} ⦃o : Ord A⦄ (j k : A) (set : Pins A)
    → is_pinned j (pin k set) ≡ true
    → (is_pinned j set ≡ true) ⊎ (k ≡ j)
pin-cases j k set h = elim (Bool-cases (j == k)) [
  | inl e ↦ inr (sym (eq_of_== j k e))
  | inr e ↦ let f = is_pinned-pin j k set in inl (ground (arith, e, f, h))
]

nothing_pinned : {A : Type 0} ⦃o : Ord A⦄ (j : A) → is_pinned j new_pins ≢ true
unfolding is_pinned contains_key get
nothing_pinned j h = cc

pin_keeps :
    {A : Type 0} ⦃o : Ord A⦄ (j k : A) (set : Pins A)
    → (is_pinned j set ≡ true) ⊎ (k ≡ j)
    → is_pinned j (pin k set) ≡ true
pin_keeps j k set (inl h) = is_pinned-pin j k set ∙ ground (arith, h)
pin_keeps j k set (inr e) =
    let f = ==_refl j in
    subst (λ x. is_pinned j (pin x set) ≡ true) (sym e) (is_pinned-pin j j set ∙ ground (arith, f))

module _ (p : Platform) (v : Vault p) ⦃lo : Ord p.Link⦄ (s : v.Store) where
  -- The manifests among the blobs.
  abbrev pub stored : p.Link → Option (Manifest p)
  stored l = to_option (get_manifest_from_blobs p v l s)

  stored-ok :
      (l : p.Link) (m : Manifest p) → get_manifest_from_blobs p v l s ≡ ok m → stored l ≡ some m
  stored-ok l m f = rw f refl

  -- The set of a chain has what was in it and every link on the way back.
  chain_links-eq :
      (fuel : ℕ) (l : p.Link) (set set' : Pins p.Link) (j : p.Link)
      → chain_links p v fuel l set s ≡ ok set'
      → (is_pinned j set' ≡ true → (is_pinned j set ≡ true) ⊎ Back p stored l j)
        × ((is_pinned j set ≡ true) ⊎ Back p stored l j → is_pinned j set' ≡ true)
  unfolding chain_links follow
  chain_links-eq zero l set set' j e = cc
  chain_links-eq (suc fuel) l set set' j e = elim (Result-cases (get_manifest_from_blobs p v l s)) [
    | inr (x, f) ↦ absurd (ground (arith, f, e))
    | inl (m, f) ↦
        let g = stored-ok l m f in
        let h = is_pinned-pin j l set in
        elim (Option-cases m.previous) [
          | inl q ↦
              let same : pin l set ≡ set' = ground (arith, f, q, e) in
              subst
                (λ x.
                  (is_pinned j x ≡ true → (is_pinned j set ≡ true) ⊎ Back p stored l j)
                  × ((is_pinned j set ≡ true) ⊎ Back p stored l j → is_pinned j x ≡ true))
                same
                (
                  λ t. elim (pin-cases j l set t) [
                    | inl u ↦ inl u
                    | inr u ↦ inr (subst (Back p stored l) u here)
                  ],
                  λ t. pin_keeps j l set (elim t [
                    | inl u ↦ inl u
                    | inr b ↦ elim (Back-cases p stored l j m g b) [
                      | inl u ↦ inr u
                      | inr (k, q', c) ↦ absurd (cc (q, q'))
                    ]
                  ]),
                )
          | inr (k, q) ↦
              let e' : chain_links p v fuel k (pin l set) s ≡ ok set' = ground (arith, f, q, e) in
              let (a, b) = chain_links-eq fuel k (pin l set) set' j e' in
              (
                λ t. elim (a t) [
                  | inl u ↦ elim (pin-cases j l set u) [
                    | inl w ↦ inl w
                    | inr w ↦ inr (subst (Back p stored l) w here)
                  ]
                  | inr c ↦ inr (back m g q c)
                ],
                λ t. b (elim t [
                  | inl u ↦ inl (pin_keeps j l set (inl u))
                  | inr c ↦ elim (Back-cases p stored l j m g c) [
                    | inl u ↦ inl (pin_keeps j l set (inr u))
                    | inr (i, q', d) ↦
                        let same : i ≡ k = cc (q, q') in inr (subst (λ y. Back p stored y j) same d)
                  ]
                ]),
              )
        ]
  ]

  -- What the walk along the other chain answers: its first link that is in the set, if there is
  -- one.
  abbrev IsFirst : Pins p.Link → p.Link → Option p.Link → Type 0
  IsFirst set start none = (j : p.Link) → Back p stored start j → is_pinned j set ≡ false
  IsFirst set start (some l) =
      Back p stored start l
      × (is_pinned l set ≡ true)
      × ((j : p.Link) → Back p stored start j → is_pinned j set ≡ true → Back p stored l j)

  IsFirst-step :
      (set : Pins p.Link) (l k : p.Link) (m : Manifest p) (r : Option p.Link)
      → stored l ≡ some m
      → m.previous ≡ some k
      → is_pinned l set ≡ false
      → IsFirst set k r
      → IsFirst set l r
  IsFirst-step set l k m none f q u h = λ j b. elim (Back-cases p stored l j m f b) [
    | inl same ↦ subst (λ x. is_pinned x set ≡ false) same u
    | inr (i, q', c) ↦ let same : i ≡ k = cc (q, q') in h j (subst (λ y. Back p stored y j) same c)
  ]
  IsFirst-step set l k m (some x) f q u (b, known, first) = (
    back m f q b,
    known,
    λ j c seen. elim (Back-cases p stored l j m f c) [
      | inl same ↦ absurd (cc (ap (λ y. is_pinned y set) same, u, seen))
      | inr (i, q', d) ↦
          let same : i ≡ k = cc (q, q') in first j (subst (λ y. Back p stored y j) same d) seen
    ],
  )

  first_link_in-IsFirst :
      (fuel : ℕ) (start : p.Link) (set : Pins p.Link) (r : Option p.Link)
      → first_link_in p v fuel start set s ≡ ok r
      → IsFirst set start r
  unfolding first_link_in seek_link follow
  first_link_in-IsFirst zero start set r e = cc
  first_link_in-IsFirst (suc fuel) start set r e = elim (Bool-cases (is_pinned start set)) [
    | inl known ↦
        let same : some start ≡ r = ground (arith, known, e) in
        subst (IsFirst set start) same (here, known, λ j b seen. b)
    | inr unknown ↦ elim (Result-cases (get_manifest_from_blobs p v start s)) [
      | inr (x, f) ↦ absurd (ground (arith, unknown, f, e))
      | inl (m, f) ↦
          let g = stored-ok start m f in
          elim (Option-cases m.previous) [
            | inl q ↦
                let same : none ≡ r = ground (arith, unknown, f, q, e) in
                subst (IsFirst set start) same λ j b. elim (Back-cases p stored start j m g b) [
                  | inl u ↦ subst (λ x. is_pinned x set ≡ false) u unknown
                  | inr (k, q', c) ↦ absurd (cc (q, q'))
                ]
            | inr (k, q) ↦
                IsFirst-step set start k m r g q unknown
                  (first_link_in-IsFirst fuel k set r (ground (arith, unknown, f, q, e)))
          ]
    ]
  ]

  -- The latest link that the chains behind two links share, if there is one.
  abbrev pub IsMeeting : p.Link → p.Link → Option p.Link → Type 0
  IsMeeting ours theirs none = (j : p.Link) → Back p stored theirs j → Back p stored ours j → ⊥
  IsMeeting ours theirs (some l) =
      Back p stored theirs l
      × Back p stored ours l
      × ((j : p.Link) → Back p stored theirs j → Back p stored ours j → Back p stored l j)

  meeting :
      (ours theirs : p.Link) (set : Pins p.Link) (r : Option p.Link)
      → ((j : p.Link)
          → (is_pinned j set ≡ true → Back p stored ours j)
            × (Back p stored ours j → is_pinned j set ≡ true))
      → IsFirst set theirs r
      → IsMeeting ours theirs r
  meeting ours theirs set none h f = λ j b c. cc (f j b, (h j).1 c)
  meeting ours theirs set (some l) h (b, known, first) =
      (b, (h l).0 known, λ j c d. first j c ((h j).1 d))

  -- Where `find_common_ancestor` succeeds, it answers the latest link that the chains of the two
  -- mounts share, behind which every other shared link stands; or that they share none.
  pub find_mount_ancestor_lem :
      (fuel : ℕ) (inner other : MountInner p v) (r : Option p.Link)
      → find_mount_ancestor p v fuel inner other s ≡ ok r
      → IsMeeting inner.link other.link r
  unfolding find_mount_ancestor
  find_mount_ancestor_lem fuel inner other r e =
      elim (Result-cases (chain_links p v fuel inner.link new_pins s)) [
        | inr (x, f) ↦ absurd (ground (arith, f, e))
        | inl (set, f) ↦
            let e' : first_link_in p v fuel other.link set s ≡ ok r = ground (arith, f, e) in
            meeting inner.link other.link set r
              (λ j.
                let (a, b) = chain_links-eq fuel inner.link new_pins set j f in
                (
                  λ t. elim (a t) [ inl u ↦ absurd (nothing_pinned j u) | inr c ↦ c ],
                  λ c. b (inr c),
                ))
              (first_link_in-IsFirst fuel other.link set r e')
      ]
