-- ===== src/Mount/Unharmed.antt =====
-- crates/common/src/mount/mount_inner.rs: files that read the same in two states of a mount, and the
-- links to files that no replacement leads through.
use jax_fs.Prelude.{
  ◌≡◌, ◌≢◌, ◌∙◌, ap, subst, Option, none, some, List, [], ◌∷◌, ◌++◌, arith, inl, inr, Option-cases,
}
use jax_fs.Prelude.Results.{ok, Result-cases}
use jax_fs.Ord.{u64_ord}
use jax_fs.Ord.Lex.{lex_ord}
use jax_fs.FilePath.{Name, FilePath}
use jax_fs.PathOps.Op.{op_id_ord}
use jax_fs.Manifest.Platform.{Platform}
use jax_fs.Mount.Node.{Data, Node, NodeLink, data_link, dir_link, get_link}
use jax_fs.Mount.Vault.{Vault}
use jax_fs.Mount.Act.{after-eq-ok, give-eq-ok}
use jax_fs.Mount.Blobs.{World, get_node_from_blobs}
use jax_fs.Mount.Walk.{enter}
use jax_fs.Mount.Session.{Session, get_mount_link, cat, read_data}
use jax_fs.Mount.Tree.{set_at}
use jax_fs.Mount.Grows.{Extends}
use jax_fs.Mount.Seek.{seek, seek-Extends}
use jax_fs.Mount.Kept.{get_of_at, at_of_get, read_data-Extends}
use jax_fs.Mount.Replaced.{at}

module _ (p : Platform) (v : Vault p) where
  -- Every file that could be read reads the same.
  pub record KeepsFiles (s s' : Session p v) : Type 0 where
    pub keeps : (q : FilePath) (b : p.Bytes) → cat p v q s ≡ ok b → cat p v q s' ≡ ok b

  pub KeepsFiles-trans : (s t u : Session p v) → KeepsFiles s t → KeepsFiles t u → KeepsFiles s u
  KeepsFiles-trans s t u a b = record { keeps = λ q c h. b.keeps q c (a.keeps q c h) }

  -- The link of a file that is read, which is one to data.
  pub link-cat :
      (q : FilePath) (b : p.Bytes) (s : Session p v)
      → cat p v q s ≡ ok b
      → (l : NodeLink p) × (at p v q s ≡ some l) × (read_data p v q l s.world.store ≡ ok b)
  unfolding cat
  link-cat q b s h = elim (Result-cases (get_mount_link p v q s)) [
    | inr (x, f) ↦ absurd (ground (arith, f, h))
    | inl (l, f) ↦ (l, at_of_get p v q s l f, ground (arith, f, h))
  ]

  cat-link :
      (q : FilePath) (b : p.Bytes) (l : NodeLink p) (s : Session p v)
      → at p v q s ≡ some l
      → read_data p v q l s.world.store ≡ ok b
      → cat p v q s ≡ ok b
  unfolding cat
  cat-link q b l s h r = rw (get_of_at p v q s l h) r

  -- A mount with the same root on more blobs.
  pub grown-KeepsFiles :
      (s s' : Session p v)
      → s'.inner.entry ≡ s.inner.entry
      → Extends p v s.world.store s'.world.store
      → KeepsFiles s s'
  grown-KeepsFiles s s' e x = record {
    keeps = λ q b h.
        let (l, there, r) = link-cat q b s h in
        let there' : at p v q s' ≡ some l =
          ap (λ n. seek p v q n s'.world.store) e
          ∙ seek-Extends p v q s.inner.entry s.world.store s'.world.store l x there in
        cat-link q b l s' there' (read_data-Extends p v q q l s.world.store s'.world.store b x r);
  }

  enter-Dir :
      (consumed : FilePath) (o : Option (NodeLink p)) (t : v.Store) (child : Node p)
      (k : NodeLink p)
      → enter p v consumed o t ≡ ok child
      → (o ≡ some k)
      → get_node_from_blobs p v k t ≡ ok child
  unfolding enter
  enter-Dir consumed (some (dir_link l s)) t child k h e =
      let same : dir_link l s ≡ k = ground (arith, e) in
      subst (λ x. get_node_from_blobs p v x t ≡ ok child) same h
  enter-Dir consumed (some (data_link l s d)) t child k h e = cc
  enter-Dir consumed none t child k h e = cc

  enter-data_link :
      (consumed : FilePath) (o : Option (NodeLink p)) (t : v.Store) (child : Node p) (l : p.Link)
      (k : p.Secret) (d : Data p)
      → enter p v consumed o t ≡ ok child
      → o ≢ some (data_link l k d)
  unfolding enter
  enter-data_link consumed none t child l k d h e = cc
  enter-data_link consumed (some (dir_link i j)) t child l k d h e = cc
  enter-data_link consumed (some (data_link i j c)) t child l k d h e = cc

  -- A replacement that succeeds does not lead through the link of a file.
  pub set_at_blocked :
      (consumed : FilePath) (node : Node p) (ps : FilePath) (name n m : Name) (qs r : FilePath)
      (link : NodeLink p) (l : p.Link) (k : p.Secret) (d : Data p) (w w' : World p v)
      (x : NodeLink p × List v.Hash)
      → set_at p v consumed node ps name link w ≡ (w', ok x)
      → ps ++ name ∷ [] ≡ n ∷ qs ++ m ∷ r
      → seek p v (n ∷ qs) node w.store ≢ some (data_link l k d)
  unfolding set_at seek
  set_at_blocked consumed node [] name n m [] r link l k d w w' x h e f = cc
  set_at_blocked consumed node [] name n m (i ∷ qs) r link l k d w w' x h e f = cc
  set_at_blocked consumed node (part ∷ ps) name n m [] r link l k d w w' x h e f =
      let (child, e1, f1) =
        give-eq-ok (enter p v (consumed ++ part ∷ []) (get_link p part node) w.store) w _ h in
      let same : part ≡ n = ground (arith, e) in
      let f' : get_link p part node ≡ some (data_link l k d) =
        elim (Option-cases (get_link p n node)) [
          | inl z ↦ absurd (ground (arith, z, f))
          | inr (y, z) ↦ ground (arith, z, f, same)
        ] in
      enter-data_link (consumed ++ part ∷ []) (get_link p part node) w.store child l k d e1 f'
  set_at_blocked consumed node (part ∷ ps) name n m (i ∷ qs) r link l k d w w' x h e f =
      let (child, e1, f1) =
        give-eq-ok (enter p v (consumed ++ part ∷ []) (get_link p part node) w.store) w _ h in
      let (w2, y, e2, f2) =
        after-eq-ok (set_at p v (consumed ++ part ∷ []) child ps name link w) _ f1 in
      let same : part ≡ n = ground (arith, e) in
      let rest : ps ++ name ∷ [] ≡ i ∷ qs ++ m ∷ r = ground (arith, e) in
      let f' : seek p v (i ∷ qs) child w.store ≡ some (data_link l k d) =
        elim (Option-cases (get_link p n node)) [
          | inl z ↦ absurd (ground (arith, z, f))
          | inr (y, z) ↦
              let g =
                enter-Dir (consumed ++ part ∷ []) (get_link p part node) w.store child y e1
                  (ap (λ q. get_link p q node) same ∙ z) in
              ground (arith, z, g, f)
        ] in
      set_at_blocked (consumed ++ part ∷ []) child ps name i m qs r link l k d w w2 y e2 rest f'
