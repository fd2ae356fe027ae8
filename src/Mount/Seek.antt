-- ===== src/Mount/Seek.antt =====
-- Which link stands at a path, seen from a node; a link stays where it is as blobs are added.
use jax_fs.Prelude.{
  ◌≡◌, refl, Bool, true, false, Option, none, some, [], ◌∷◌, ◌++◌, arith, Option-cases, inl, inr,
  if◌then◌else◌,
}
use jax_fs.Prelude.Results
use jax_fs.Prelude.Results.{Result, ok, err, ok_or, to_option, Result-cases}
use jax_fs.Ord.{u64_ord, ◌==◌}
use jax_fs.Ord.Lex.{lex_ord}
use jax_fs.BTreeMap.{get}
use jax_fs.FilePath.{Name, FilePath}
use jax_fs.Manifest.Platform.{Platform}
use jax_fs.Mount.Node.{Node, NodeLink, new_node, get_link}
use jax_fs.Mount.Vault.{Vault}
use jax_fs.Mount.Blobs.{MountError, get_node_from_blobs}
use jax_fs.Mount.Walk.{get_node_at_path}
use jax_fs.Mount.Session.{split, get_at}
use jax_fs.Mount.Tree.{parent-snoc, file_name-snoc_name}
use jax_fs.Mount.Grows.{Extends, get_node-Extends}

-- The paths part: neither is the other or lies below it.
unfoldable pub apart : FilePath → FilePath → Bool
apart [] q = false
apart (n ∷ p) [] = false
apart (n ∷ p) (m ∷ q) = let rest = apart p q in if m == n then rest else true

module _ (p : Platform) (v : Vault p) where
  abbrev pub in_child :
      Result (MountError p) (Node p) → (Node p → Option (NodeLink p)) → Option (NodeLink p)
  in_child (ok node) next = next node
  in_child (err e) next = none

  -- What is below a link: itself, or what a node has below.
  abbrev pub below :
      Option (NodeLink p)
      → FilePath
      → v.Store
      → (Node p → Option (NodeLink p))
      → Option (NodeLink p)
  below none rest s next = none
  below (some l) [] s next = some l
  below (some l) (m ∷ rest) s next = in_child (get_node_from_blobs p v l s) next

  unfoldable pub seek : FilePath → Node p → v.Store → Option (NodeLink p)
  seek [] node s = none
  seek (n ∷ rest) node s = below (get_link p n node) rest s (λ child. seek rest child s)

  pub seek-new_node : (path : FilePath) (s : v.Store) → seek path (new_node p) s ≡ none
  unfolding seek get_link get
  seek-new_node [] s = refl
  seek-new_node (n ∷ rest) s = refl

  pub seek-Extends :
      (path : FilePath) (node : Node p) (s t : v.Store) (l : NodeLink p)
      → Extends p v s t
      → seek path node s ≡ some l
      → seek path node t ≡ some l
  unfolding seek
  seek-Extends [] node s t l e h = cc
  seek-Extends (n ∷ []) node s t l e h = elim (Option-cases (get_link p n node)) [
    | inl q ↦ absurd (ground (arith, q, h))
    | inr (k, q) ↦ ground (arith, q, h)
  ]
  seek-Extends (n ∷ m ∷ rest) node s t l e h = elim (Option-cases (get_link p n node)) [
    | inl q ↦ absurd (ground (arith, q, h))
    | inr (k, q) ↦ elim (Result-cases (get_node_from_blobs p v k s)) [
      | inr (x, f) ↦ absurd (ground (arith, q, f, h))
      | inl (child, f) ↦
          let f' = get_node-Extends p v k child s t e f in
          let h' : seek (m ∷ rest) child s ≡ some l = ground (arith, q, f, h) in
          let k' = seek-Extends (m ∷ rest) child s t l e h' in ground (arith, q, f', k')
    ]
  ]

  -- There is more to go than the link itself.
  pub below-cons :
      (k : NodeLink p) (ps : FilePath) (m : Name) (q : FilePath) (s : v.Store)
      (next : Node p → Option (NodeLink p))
      → below (some k) (ps ++ m ∷ q) s next ≡ in_child (get_node_from_blobs p v k s) next
  below-cons k [] m q s next = refl
  below-cons k (n ∷ ps) m q s next = refl

  pub to_option-walk :
      (consumed : FilePath) (node : Node p) (ps : FilePath) (n : Name) (s : v.Store)
      (e : MountError p)
      → to_option
          (Results.◌>>=◌ (get_node_at_path p v consumed node ps s) (λ d. ok_or (get_link p n d) e))
        ≡ seek (ps ++ n ∷ []) node s
  unfolding get_node_at_path seek
  to_option-walk consumed node [] n s e = elim (Option-cases (get_link p n node)) [
    | inl q ↦ ground (arith, q)
    | inr (k, q) ↦ ground (arith, q)
  ]
  to_option-walk consumed node (part ∷ ps) n s e = elim (Option-cases (get_link p part node)) [
    | inl q ↦ ground (arith, q)
    | inr (k, q) ↦
        rw (q, below-cons k ps n [] s (λ child. seek (ps ++ n ∷ []) child s))
          elim (Result-cases (get_node_from_blobs p v k s)) [
            | inr (x, f) ↦ ground (arith, f)
            | inl (child, f) ↦ rw f (to_option-walk (consumed ++ part ∷ []) child ps n s e)
          ]
  ]

  -- What `get` finds at a path is what stands there.
  pub to_option-get_at :
      (root : Node p) (ps : FilePath) (n : Name) (s : v.Store)
      → to_option (get_at p v root (ps ++ n ∷ []) s) ≡ seek (ps ++ n ∷ []) root s
  unfolding get_at split
  to_option-get_at root ps n s =
      rw (parent-snoc ps n, file_name-snoc_name ps n)
        (to_option-walk [] root ps n s (MountError.path_not_found (ps ++ n ∷ [])))

  -- The node of a link that stands at a path is what the walk comes to.
  pub walk-seek :
      (consumed : FilePath) (root : Node p) (path : FilePath) (s : v.Store) (l : NodeLink p)
      (node : Node p)
      → seek path root s ≡ some l
      → get_node_from_blobs p v l s ≡ ok node
      → get_node_at_path p v consumed root path s ≡ ok node
  unfolding get_node_at_path seek
  walk-seek consumed root [] s l node h g = cc
  walk-seek consumed root (n ∷ []) s l node h g = elim (Option-cases (get_link p n root)) [
    | inl q ↦ absurd (ground (arith, q, h))
    | inr (k, q) ↦ ground (arith, q, h, g)
  ]
  walk-seek consumed root (n ∷ m ∷ rest) s l node h g = elim (Option-cases (get_link p n root)) [
    | inl q ↦ absurd (ground (arith, q, h))
    | inr (k, q) ↦ elim (Result-cases (get_node_from_blobs p v k s)) [
      | inr (x, f) ↦ absurd (ground (arith, q, f, h))
      | inl (child, f) ↦
          let h' : seek (m ∷ rest) child s ≡ some l = ground (arith, q, f, h) in
          let k' = walk-seek (consumed ++ n ∷ []) child (m ∷ rest) s l node h' g in rw (q, f) k'
    ]
  ]

  -- What is below a node that the walk comes to.
  pub seek-walk :
      (consumed : FilePath) (root : Node p) (ps : FilePath) (d : Node p) (m : Name) (q : FilePath)
      (s : v.Store)
      → get_node_at_path p v consumed root ps s ≡ ok d
      → seek (ps ++ m ∷ q) root s ≡ seek (m ∷ q) d s
  unfolding get_node_at_path seek
  seek-walk consumed root [] d m q s h = ground (arith, h)
  seek-walk consumed root (n ∷ ps) d m q s h = elim (Option-cases (get_link p n root)) [
    | inl e ↦ absurd (ground (arith, e, h))
    | inr (k, e) ↦ elim (Result-cases (get_node_from_blobs p v k s)) [
      | inr (x, f) ↦ absurd (ground (arith, e, f, h))
      | inl (child, f) ↦
          let h' : get_node_at_path p v (consumed ++ n ∷ []) child ps s ≡ ok d =
            ground (arith, e, f, h) in
          rw (e, below-cons k ps m q s (λ c. seek (ps ++ m ∷ q) c s), f)
            (seek-walk (consumed ++ n ∷ []) child ps d m q s h')
    ]
  ]

  -- A walk that came to its end comes there as blobs are added.
  pub walk-Extends :
      (consumed : FilePath) (root : Node p) (ps : FilePath) (d : Node p) (s t : v.Store)
      → Extends p v s t
      → get_node_at_path p v consumed root ps s ≡ ok d
      → get_node_at_path p v consumed root ps t ≡ ok d
  unfolding get_node_at_path
  walk-Extends consumed root [] d s t x h = h
  walk-Extends consumed root (n ∷ ps) d s t x h = elim (Option-cases (get_link p n root)) [
    | inl e ↦ absurd (ground (arith, e, h))
    | inr (k, e) ↦ elim (Result-cases (get_node_from_blobs p v k s)) [
      | inr (y, f) ↦ absurd (ground (arith, e, f, h))
      | inl (child, f) ↦
          let h' : get_node_at_path p v (consumed ++ n ∷ []) child ps s ≡ ok d =
            ground (arith, e, f, h) in
          rw (e, get_node-Extends p v k child s t x f)
            (walk-Extends (consumed ++ n ∷ []) child ps d s t x h')
    ]
  ]

  -- Something is at every path above one where something is.
  pub seek_prefix :
      (n : Name) (ps : FilePath) (m : Name) (q : FilePath) (root : Node p) (s : v.Store)
      (l : NodeLink p)
      → seek (n ∷ ps ++ m ∷ q) root s ≡ some l
      → (k : NodeLink p) × (seek (n ∷ ps) root s ≡ some k)
  unfolding seek
  seek_prefix n [] m q root s l h = elim (Option-cases (get_link p n root)) [
    | inl e ↦ absurd (ground (arith, e, h))
    | inr (k, e) ↦ (k, rw e refl)
  ]
  seek_prefix n (i ∷ ps) m q root s l h = elim (Option-cases (get_link p n root)) [
    | inl e ↦ absurd (ground (arith, e, h))
    | inr (k, e) ↦ elim (Result-cases (get_node_from_blobs p v k s)) [
      | inr (x, f) ↦ absurd (ground (arith, e, f, h))
      | inl (child, f) ↦
          let h' : seek (i ∷ ps ++ m ∷ q) child s ≡ some l = ground (arith, e, f, h) in
          let (j, g) = seek_prefix i ps m q child s l h' in (j, rw (e, f) g)
    ]
  ]
