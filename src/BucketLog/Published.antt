-- ===== src/BucketLog/Published.antt =====
-- `latest_published`: the loop finds a published link at the greatest height that has one, in
-- whatever order the table of heights is iterated.
use jax_fs.Prelude.{
  ℕ, ◌≤◌, ◌≡◌, refl, sym, subst, Bool, true, false, ◌&&◌, Option, none, some, List, [], ◌∷◌, arith,
  All, All-imp, any, unwrap_or, Bool-cases, inl, inr, leb, if◌then◌else◌,
}
use jax_fs.Ord.{Ord, u64_ord, ◌==◌, ==_refl}
use jax_fs.BTreeMap.{BTreeMap, get}
use jax_fs.BucketLog.Head.{contains-All}
use jax_fs.BucketLog.Memory.{
  Inner, contains, improves, scan_links, scan_heights, scan_tables, latest_published,
}

module _ {Link : Type 0} ⦃lo : Ord Link⦄ (published : BTreeMap Link Bool) where
  abbrev pub is_marked : Link → Bool
  is_marked link = unwrap_or (get link published) false

  -- The link is among those of the height in the enumeration.
  abbrev pub listed : Link → ℕ → List (ℕ × List Link) → Bool
  listed link height es = any (λ e. e.0 == height && contains link e.1) es

  abbrev reaches : Option (Link × ℕ) → ℕ → Bool
  reaches none h = false
  reaches (some (l, b)) h = leb h b

  -- One link of the inner loop.
  abbrev try_link : ℕ → Link → Option (Link × ℕ) → Option (Link × ℕ)
  try_link height link best =
      if is_marked link && improves height best then some (link, height) else best

  try_link_keeps :
      (height : ℕ) (link : Link) (best : Option (Link × ℕ)) (h : ℕ)
      → reaches best h ≡ true
      → reaches (try_link height link best) h ≡ true
  try_link_keeps height link none h e = cc
  try_link_keeps height link (some (l, b)) h e = ground arith

  try_link-reaches :
      (height : ℕ) (link : Link) (best : Option (Link × ℕ))
      → is_marked link ≡ true
      → reaches (try_link height link best) height ≡ true
  try_link-reaches height link none e = ground arith
  try_link-reaches height link (some (l, b)) e = ground arith

  scan_links_keeps :
      (height : ℕ) (links : List Link) (best : Option (Link × ℕ)) (h : ℕ)
      → reaches best h ≡ true
      → reaches (scan_links published height links best) h ≡ true
  unfolding scan_links
  scan_links_keeps height [] best h e = e
  scan_links_keeps height (link ∷ links) best h e =
      scan_links_keeps height links (try_link height link best) h
        (try_link_keeps height link best h e)

  scan_links-reaches :
      (height : ℕ) (links : List Link) (best : Option (Link × ℕ))
      → any is_marked links ≡ true
      → reaches (scan_links published height links best) height ≡ true
  unfolding scan_links any
  scan_links-reaches height [] best e = cc
  scan_links-reaches height (link ∷ links) best e = elim (Bool-cases (is_marked link)) [
    | inl t ↦
        scan_links_keeps height links (try_link height link best) height
          (try_link-reaches height link best t)
    | inr f ↦ scan_links-reaches height links (try_link height link best) (ground arith)
  ]

  scan_heights_keeps :
      (es : List (ℕ × List Link)) (best : Option (Link × ℕ)) (h : ℕ)
      → reaches best h ≡ true
      → reaches (scan_heights published es best) h ≡ true
  unfolding scan_heights
  scan_heights_keeps [] best h e = e
  scan_heights_keeps ((height, links) ∷ es) best h e =
      scan_heights_keeps es (scan_links published height links best) h
        (scan_links_keeps height links best h e)

  scan_heights-reaches :
      (es : List (ℕ × List Link)) (best : Option (Link × ℕ))
      → All (λ e. any is_marked e.1 ≡ true → reaches (scan_heights published es best) e.0 ≡ true) es
  unfolding scan_heights
  scan_heights-reaches [] best = tt
  scan_heights-reaches ((height, links) ∷ es) best = (
    λ t.
        scan_heights_keeps es (scan_links published height links best) height
          (scan_links-reaches height links best t),
    scan_heights-reaches es (scan_links published height links best),
  )

  -- A best so far is published and listed in `all`.
  abbrev Sound : List (ℕ × List Link) → Option (Link × ℕ) → Type 0
  Sound all none = Unit
  Sound all (some (l, h)) = (is_marked l ≡ true) × (listed l h all ≡ true)

  scan_links-Sound :
      (all : List (ℕ × List Link)) (height : ℕ) (links : List Link) (best : Option (Link × ℕ))
      → All (λ l. listed l height all ≡ true) links
      → Sound all best
      → Sound all (scan_links published height links best)
  unfolding scan_links
  scan_links-Sound all height [] best h s = s
  scan_links-Sound all height (link ∷ links) best h s =
      scan_links-Sound all height links (try_link height link best) h.1
        (tried (is_marked link && improves height best) refl)
    where
      tried :
          (b : Bool)
          → (is_marked link && improves height best) ≡ b
          → Sound all (if b then some (link, height) else best)
      tried true e = (ground arith, h.0)
      tried false e = s

  scan_heights-Sound :
      (all es : List (ℕ × List Link)) (best : Option (Link × ℕ))
      → All (λ e. All (λ l. listed l e.0 all ≡ true) e.1) es
      → Sound all best
      → Sound all (scan_heights published es best)
  unfolding scan_heights
  scan_heights-Sound all [] best h s = s
  scan_heights-Sound all ((height, links) ∷ es) best h s =
      scan_heights-Sound all es (scan_links published height links best) h.1
        (scan_links-Sound all height links best h.0 s)

  listed_head :
      (height : ℕ) (links : List Link) (es : List (ℕ × List Link))
      → All (λ l. listed l height ((height, links) ∷ es) ≡ true) links
  unfolding any
  listed_head height links es =
      All-imp (λ l e. ground (arith, ==_refl height)) links (contains-All links)

  All-listed : (es : List (ℕ × List Link)) → All (λ e. All (λ l. listed l e.0 es ≡ true) e.1) es
  unfolding any
  All-listed [] = tt
  All-listed ((height, links) ∷ es) = (
    listed_head height links es,
    All-imp (λ e. All-imp (λ l h. ground arith) e.1) es (All-listed es),
  )

  -- What the loop returns, for any enumeration of the heights: nothing exactly where no listed link
  -- is published, and otherwise a published link with a height that lists it, such that no height
  -- with a published link is greater.
  abbrev pub IsLatest : List (ℕ × List Link) → Option (Link × ℕ) → Type 0
  IsLatest es none = All (λ e. any is_marked e.1 ≡ false) es
  IsLatest es (some (l, h)) =
      (is_marked l ≡ true)
      × (listed l h es ≡ true)
      × All (λ e. any is_marked e.1 ≡ true → e.0 ≤ h) es

  Sound-IsLatest :
      (es : List (ℕ × List Link)) (r : Option (Link × ℕ))
      → Sound es r
      → All (λ e. any is_marked e.1 ≡ true → reaches r e.0 ≡ true) es
      → IsLatest es r
  Sound-IsLatest es none s h = All-imp (λ e f. ground arith) es h
  Sound-IsLatest es (some (l, h)) s k = (s.0, s.1, All-imp (λ e f t. ground (arith, f t)) es k)

  pub scan_heights-IsLatest :
      (es : List (ℕ × List Link)) → IsLatest es (scan_heights published es none)
  scan_heights-IsLatest es =
      Sound-IsLatest es (scan_heights published es none)
        (scan_heights-Sound es es none (All-listed es) tt) (scan_heights-reaches es none)

module _ {Uuid Link : Type 0} ⦃uo : Ord Uuid⦄ ⦃lo : Ord Link⦄ where
  -- `latest_published` gives nothing for a bucket with no status or no entries, and otherwise the
  -- published link at the greatest height that lists one, in whatever order the heights are
  -- iterated: nothing where no listed link is published.
  pub latest_published_lem :
      (id : Uuid) (s : Inner Uuid Link) (published : BTreeMap Link Bool)
      (bucket : BTreeMap ℕ (List Link))
      → get id s.published ≡ some published
      → get id s.entries ≡ some bucket
      → IsLatest published bucket (latest_published id s)
  latest_published_lem id s published bucket e f =
      let found : latest_published id s ≡ scan_heights published bucket none =
        unfold latest_published scan_tables in rw (e, f) refl in
      subst (IsLatest published bucket) (sym found) (scan_heights-IsLatest published bucket)
