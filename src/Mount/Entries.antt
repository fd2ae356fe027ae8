-- ===== src/Mount/Entries.antt =====
-- The entries of a directory on the way along a path: their names are sorted, and one is removed.
use jax_fs.Prelude.{
  ◌≡◌, ◌≢◌, refl, sym, ◌∙◌, ap, subst, true, false, none, some, [], ◌∷◌, ◌++◌, arith, Option-cases,
  Bool-cases, inl, inr, ◌⊎◌,
}
use jax_fs.Prelude.Results.{ok, Result-cases}
use jax_fs.Ord.{u64_ord, ◌==◌, eq_of_==, ==_refl}
use jax_fs.Ord.Lex.{lex_ord}
use jax_fs.BTreeMap.Removal.{get-remove}
use jax_fs.FilePath.{Name, FilePath, parent}
use jax_fs.Manifest.Platform.{Platform}
use jax_fs.Mount.Node.{IsValid, Node, NodeLink, get_link, del_link, link_of, secret_of}
use jax_fs.Mount.Vault.{Vault, StoreLaws, CodecLaws}
use jax_fs.Mount.Blobs.{MountError, get_node_from_blobs, read_secret}
use jax_fs.Mount.Walk.{get_node_at_path}
use jax_fs.Mount.Session.{split}
use jax_fs.Mount.Tree.{parent-snoc, file_name-snoc_name}
use jax_fs.Mount.Seek.{apart, seek}
use jax_fs.Mount.Kept.{snoc-cases}

-- What is apart from an entry of a directory is apart from the directory or under another name in it.
pub apart-snoc :
    (ps : FilePath) (n : Name) (q : FilePath)
    → apart (ps ++ n ∷ []) q ≡ true
    → (apart ps q ≡ true) ⊎ ((m : Name) × (r : FilePath) × (q ≡ ps ++ m ∷ r) × ((m == n) ≡ false))
unfolding apart
apart-snoc [] n [] h = cc
apart-snoc [] n (m ∷ q) h = elim (Bool-cases (m == n)) [
  | inl e ↦ absurd (ground (arith, e, h))
  | inr e ↦ inr (m, q, refl, e)
]
apart-snoc (k ∷ ps) n [] h = cc
apart-snoc (k ∷ ps) n (m ∷ q) h = elim (Bool-cases (m == k)) [
  | inr e ↦ inl (ground (arith, e))
  | inl e ↦ elim (apart-snoc ps n q (ground (arith, e, h))) [
    | inl a ↦ inl (ground (arith, e, a))
    | inr (j, r, f, g) ↦ inr (j, r, cc (f, eq_of_== m k e), g)
  ]
]

module _ (p : Platform) (v : Vault p) (sl : StoreLaws p v) (cl : CodecLaws p v) where
  pub get_node-IsValid :
      (l : NodeLink p) (s : v.Store) (d : Node p) → get_node_from_blobs p v l s ≡ ok d → IsValid p d
  unfolding get_node_from_blobs
  get_node-IsValid l s d h = elim (Result-cases (read_secret p v (link_of p l) (secret_of p l) s)) [
    | inr (x, f) ↦ absurd (ground (arith, f, h))
    | inl (b, f) ↦ elim (Option-cases (v.decode_node b)) [
      | inl g ↦ absurd (ground (arith, f, g, h))
      | inr (d', g) ↦ subst (IsValid p) (ground (arith, f, g, h)) (cl.decode_node-IsSorted b d' g)
    ]
  ]

  pub walk-IsValid :
      (consumed : FilePath) (root : Node p) (ps : FilePath) (d : Node p) (s : v.Store)
      → IsValid p root
      → get_node_at_path p v consumed root ps s ≡ ok d
      → IsValid p d
  unfolding get_node_at_path
  walk-IsValid consumed root [] d s i h = subst (IsValid p) (ground (arith, h)) i
  walk-IsValid consumed root (n ∷ ps) d s i h = elim (Option-cases (get_link p n root)) [
    | inl e ↦ absurd (ground (arith, e, h))
    | inr (k, e) ↦ elim (Result-cases (get_node_from_blobs p v k s)) [
      | inr (y, f) ↦ absurd (ground (arith, e, f, h))
      | inl (child, f) ↦
          walk-IsValid (consumed ++ n ∷ []) child ps d s (get_node-IsValid k s child f)
            (ground (arith, e, f, h))
    ]
  ]

  -- A directory with a name removed.
  pub seek-del_link :
      (n m : Name) (q : FilePath) (d : Node p) (t : v.Store)
      → IsValid p d
      → (m == n) ≡ false
      → seek p v (m ∷ q) (del_link p n d) t ≡ seek p v (m ∷ q) d t
  unfolding seek del_link get_link
  seek-del_link n m q d t i h = rw (get-remove n m d.links i, h) refl

  pub seek_name :
      (n : Name) (d : Node p) (k : NodeLink p) (t : v.Store)
      → get_link p n d ≡ some k
      → seek p v (n ∷ []) d t ≡ some k
  unfolding seek
  seek_name n d k t h = rw h refl

  split_root : (x : MountError p) (r : FilePath × Name) → split p v [] x ≢ ok r
  unfolding split parent
  split_root x r h = cc

  -- A path that was split is its parts together.
  pub split-eq :
      (path : FilePath) (x : MountError p) (r : FilePath × Name)
      → split p v path x ≡ ok r
      → path ≡ r.0 ++ r.1 ∷ []
  unfolding split
  split-eq path x r h = elim (snoc-cases path) [
    | inl e ↦ absurd (split_root x r (ap (λ q. split p v q x) (sym e) ∙ h))
    | inr (ps, n, e) ↦
        let h' : split p v (ps ++ n ∷ []) x ≡ ok r = ap (λ q. split p v q x) (sym e) ∙ h in
        let f = parent-snoc ps n in
        let g = file_name-snoc_name ps n in
        let both : split p v (ps ++ n ∷ []) x ≡ ok (ps, n) = rw (f, g) refl in cc (e, both, h')
  ]

  pub seek-del_link_self :
      (n : Name) (d : Node p) (t : v.Store)
      → IsValid p d
      → seek p v (n ∷ []) (del_link p n d) t ≡ none
  unfolding seek del_link get_link
  seek-del_link_self n d t i = rw (get-remove n n d.links i, ==_refl n) refl
