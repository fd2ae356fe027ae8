-- ===== src/Mount/Kept.antt =====
-- What `get` and `cat` give of a mount, from which link stands at a path; an operation that is done
-- at a path keeps what they give at the paths apart from it.
use jax_fs.Prelude.{
  ◌≡◌, ◌≢◌, refl, sym, ◌∙◌, ap, Bool, true, Option, none, some, [], ◌∷◌, ◌++◌, arith, inl, inr, ◌⊎◌,
}
use jax_fs.Prelude.Results.{Result, ok, err, Result-cases, to_option}
use jax_fs.Ord.{Ord}
use jax_fs.FilePath.{Name, FilePath, parent}
use jax_fs.PathOps.Op.{OpType}
use jax_fs.Manifest.Platform.{Platform}
use jax_fs.Mount.Node.{NodeLink, data_link, dir_link}
use jax_fs.Mount.Vault.{Vault, StoreLaws, CodecLaws}
use jax_fs.Mount.Session.{Session, split, get_at, get_mount_link, cat, read_data}
use jax_fs.Mount.Grows.{Extends, read_secret-Extends}
use jax_fs.Mount.Seek.{apart, seek, seek-Extends, to_option-get_at}
use jax_fs.Mount.Replaced.{at, Done}

-- A path is the root or has a parent and a name.
pub snoc-cases :
    (path : FilePath) → (path ≡ []) ⊎ ((ps : FilePath) × (n : Name) × (path ≡ ps ++ n ∷ []))
snoc-cases [] = inl refl
snoc-cases (m ∷ path) = elim (snoc-cases path) [
  | inl e ↦ inr ([], m, ap (λ x. m ∷ x) e)
  | inr (ps, n, e) ↦ inr (m ∷ ps, n, ap (λ x. m ∷ x) e)
]

ok_of_to_option : {E A : Type 0} (r : Result E A) {a : A} → to_option r ≡ some a → r ≡ ok a
ok_of_to_option (ok b) h = ground (arith, h)
ok_of_to_option (err e) h = cc

module _ (p : Platform) (v : Vault p) where
  pub get_of_at :
      (path : FilePath) (s : Session p v) (l : NodeLink p)
      → at p v path s ≡ some l
      → get_mount_link p v path s ≡ ok l
  unfolding seek
  get_of_at path s l h = elim (snoc-cases path) [
    | inl e ↦ absurd (ground (arith, e, h))
    | inr (ps, n, e) ↦
        let h' : seek p v (ps ++ n ∷ []) s.inner.entry s.world.store ≡ some l =
          ap (λ q. seek p v q s.inner.entry s.world.store) (sym e) ∙ h in
        let g =
          ok_of_to_option (get_mount_link p v (ps ++ n ∷ []) s)
            (to_option-get_at p v s.inner.entry ps n s.world.store ∙ h') in
        rw e g
  ]

  get_root : (s : Session p v) (l : NodeLink p) → get_mount_link p v [] s ≢ ok l
  unfolding get_at split parent
  get_root s l h = cc

  pub at_of_get :
      (path : FilePath) (s : Session p v) (l : NodeLink p)
      → get_mount_link p v path s ≡ ok l
      → at p v path s ≡ some l
  at_of_get path s l h = elim (snoc-cases path) [
    | inl e ↦ absurd (get_root s l (ap (λ q. get_mount_link p v q s) (sym e) ∙ h))
    | inr (ps, n, e) ↦
        let h' : get_mount_link p v (ps ++ n ∷ []) s ≡ ok l =
          ap (λ q. get_mount_link p v q s) (sym e) ∙ h in
        rw e (sym (to_option-get_at p v s.inner.entry ps n s.world.store) ∙ ap to_option h')
  ]

  pub get_of_gone :
      (path : FilePath) (s : Session p v)
      → at p v path s ≡ none
      → to_option (get_mount_link p v path s) ≡ none
  get_of_gone path s h = elim (Result-cases (get_mount_link p v path s)) [
    | inl (l, f) ↦ absurd (cc (h, at_of_get path s l f))
    | inr (x, f) ↦ rw f refl
  ]

  -- The path counts for nothing but errors.
  pub read_data-Extends :
      (path q : FilePath) (l : NodeLink p) (s t : v.Store) (b : p.Bytes)
      → Extends p v s t
      → read_data p v path l s ≡ ok b
      → read_data p v q l t ≡ ok b
  unfolding read_data
  read_data-Extends path q (data_link l k d) s t b e h = read_secret-Extends p v l k b s t e h
  read_data-Extends path q (dir_link l k) s t b e h = cc

module _ (p : Platform) (v : Vault p) ⦃ko : Ord p.Key⦄ ⦃ho : Ord v.Hash⦄ (sl : StoreLaws p v)
    (cl : CodecLaws p v) where
  -- A link that is at a path of both keeps its content.
  pub record Keeps (path : FilePath) (s s' : Session p v) : Type 0 where
    pub keeps_get :
        (q : FilePath) (l : NodeLink p)
        → apart path q ≡ true
        → get_mount_link p v q s ≡ ok l
        → get_mount_link p v q s' ≡ ok l
    pub keeps_cat :
        (q : FilePath) (b : p.Bytes)
        → apart path q ≡ true
        → cat p v q s ≡ ok b
        → cat p v q s' ≡ ok b

  pub keep :
      (path : FilePath) (s s' : Session p v)
      → Extends p v s.world.store s'.world.store
      → ((q : FilePath)
          → apart path q ≡ true
          → at p v q s' ≡ seek p v q s.inner.entry s'.world.store)
      → Keeps path s s'
  unfolding cat
  keep path s s' grown kept = record { keeps_get = links; keeps_cat = bytes }
    where
      links :
          (q : FilePath) (l : NodeLink p)
          → apart path q ≡ true
          → get_mount_link p v q s ≡ ok l
          → get_mount_link p v q s' ≡ ok l
      links q l a h =
          let there =
            seek-Extends p v q s.inner.entry s.world.store s'.world.store l grown
              (at_of_get p v q s l h) in
          get_of_at p v q s' l (kept q a ∙ there)

      bytes :
          (q : FilePath) (b : p.Bytes)
          → apart path q ≡ true
          → cat p v q s ≡ ok b
          → cat p v q s' ≡ ok b
      bytes q b a h = elim (Result-cases (get_mount_link p v q s)) [
        | inr (x, f) ↦ absurd (ground (arith, f, h))
        | inl (l, f) ↦
            let f' = links q l a f in
            let r =
              read_data-Extends p v q q l s.world.store s'.world.store b grown
                (ground (arith, f, h)) in
            ground (arith, f', r)
      ]

  pub Done-Keeps :
      {op_type : OpType} {path : FilePath} {content : Option p.Link} {is_dir : Bool}
      {link : NodeLink p} (s s' : Session p v)
      → Done p v sl cl op_type path content is_dir link s s'
      → Keeps path s s'
  Done-Keeps {path = path} s s' c = keep path s s' c.grown c.kept
