-- ===== src/Mount/Unmade.antt =====
-- crates/common/src/mount/mount_inner.rs: a `mkdir` that fails leaves no more than blobs behind.
use jax_fs.Prelude.{
  ◌+◌, ◌≡◌, ◌⊎◌, refl, sym, ◌∙◌, ap, subst, List, [], ◌∷◌, ◌++◌, inl, inr, is_some,
}
use jax_fs.Prelude.Results.{Result, ok, err}
use jax_fs.Ord.{Ord, u64_ord}
use jax_fs.Ord.Lex.{lex_ord}
use jax_fs.FilePath.{Name, FilePath, parent}
use jax_fs.PathOps.Op.{op_id_ord}
use jax_fs.Manifest.Platform.{Platform}
use jax_fs.Mount.Node.{NodeLink, get_link, new_node, dir_link}
use jax_fs.Mount.Vault.{Vault, StoreLaws, CodecLaws}
use jax_fs.Mount.Act.{after, after-eq-err, give-eq-err, fail_if-eq-err}
use jax_fs.Mount.Blobs.{World, Effect, MountError, put_node_in_blobs, generate_secret}
use jax_fs.Mount.Walk.{get_node_at_path, set_node_link_at_path}
use jax_fs.Mount.Session.{split, Session, on_blobs}
use jax_fs.Mount.Files.{or_missing, replace_link, mkdir, reload}
use jax_fs.Mount.Tree.{set_node_link_at_path-eq-set_at}
use jax_fs.Mount.Grows.{Extends, Extends-trans, Grows, Grows-eq, put_node-Grows, set_at-Grows}
use jax_fs.Mount.Kept.{snoc-cases}
use jax_fs.Mount.Unharmed.{KeepsFiles, grown-KeepsFiles}
use jax_fs.Mount.Making.{mkdir-KeepsFiles_ok}

module _ (p : Platform) (v : Vault p) where
  -- The same tree on more blobs.
  pub record Still (s s' : Session p v) : Type 0 where
    pub same_inner : s'.inner ≡ s.inner
    pub grown : Extends p v s.world.store s'.world.store

  Still-eq : (s s' : Session p v) → s' ≡ s → Still s s'
  Still-eq s s' e = record {
    same_inner = ap (λ x. x.inner) e;
    grown = subst (λ x. Extends p v s.world.store x.world.store) (sym e) (λ h b g. g);
  }

  on_blobs-eq-err :
      {A B : Type 0} (m : Effect p v A) (s : Session p v)
      (f : A → Session p v → Session p v × Result (MountError p) B) {s' : Session p v}
      {e : MountError p}
      → after (on_blobs p v m s) f ≡ (s', err e)
      → ((w : World p v) × (r : Result (MountError p) A) × (m s.world ≡ (w, r))
          × (s' ≡ record s { world = w }))
        ⊎ ((w : World p v) × (a : A) × (m s.world ≡ (w, ok a))
            × (f a (record s { world = w }) ≡ (s', err e)))
  on_blobs-eq-err {A} {B} m s f {s'} {e} h = go (m s.world) h
    where
      go :
          (x : World p v × Result (MountError p) A)
          → after (record s { world = x.0 }, x.1) f ≡ (s', err e)
          → ((w : World p v) × (r : Result (MountError p) A) × (x ≡ (w, r))
              × (s' ≡ record s { world = w }))
            ⊎ ((w : World p v) × (a : A) × (x ≡ (w, ok a))
                × (f a (record s { world = w }) ≡ (s', err e)))
      go (w, ok a) h = inr (w, a, refl, h)
      go (w, err y) h = inl (w, err y, refl, sym (ap (λ z. z.0) h))

module _ (p : Platform) (v : Vault p) ⦃ko : Ord p.Key⦄ ⦃ho : Ord v.Hash⦄ (sl : StoreLaws p v)
    (cl : CodecLaws p v) where
  grown-Still :
      {A : Type 0} (m : Effect p v A) (s s' : Session p v) (w : World p v)
      (r : Result (MountError p) A)
      → Grows p v sl m
      → m s.world ≡ (w, r)
      → s' ≡ record s { world = w }
      → Still p v s s'
  grown-Still m s s' w r g e h = record {
    same_inner = ap (λ x. x.inner) h;
    grown =
        subst (λ x. Extends p v s.world.store x.world.store) (sym h) (Grows-eq p v sl s.world g e);
  }

  Still-trans : (s t u : Session p v) → Still p v s t → Still p v t u → Still p v s u
  Still-trans s t u a b = record {
    same_inner = b.same_inner ∙ a.same_inner;
    grown = Extends-trans p v s.world.store t.world.store u.world.store a.grown b.grown;
  }

  set_link-Grows :
      (s : Session p v) (link : NodeLink p) (ps : FilePath) (name : Name)
      → Grows p v sl (set_node_link_at_path p v s.inner.entry link (ps ++ name ∷ []))
  set_link-Grows s link ps name = record {
    grows = λ w.
        rw (set_node_link_at_path-eq-set_at p v s.inner.entry link ps name w)
          ((set_at-Grows p v sl [] s.inner.entry ps name link).grows w);
  }

  replace_link-Still :
      (link : NodeLink p) (ps : FilePath) (name : Name) (hashes : List v.Hash) (s s' : Session p v)
      (e : MountError p)
      → replace_link p v link (ps ++ name ∷ []) hashes s ≡ (s', err e)
      → Still p v s s'
  unfolding replace_link
  replace_link-Still link ps name hashes s s' e h =
      let m = set_node_link_at_path p v s.inner.entry link (ps ++ name ∷ []) in
      elim (on_blobs-eq-err p v m s _ h) [
        | inl (w, r, x, same) ↦ grown-Still m s s' w r (set_link-Grows s link ps name) x same
        | inr (w, a, x, f) ↦
            let s1 : Session p v = record s { world = w } in
            let grown = grown-Still m s s1 w (ok a) (set_link-Grows s link ps name) x refl in
            elim (give-eq-err (reload p v a.0 w.store) s1 _ f) [
              | inl same ↦ Still-trans s s1 s' grown (Still-eq p v s1 s' same)
              | inr (b, g) ↦ cc
            ]
      ]

  mkdir-Still :
      (ps : FilePath) (n : Name) (s s' : Session p v) (e : MountError p)
      → mkdir p v (ps ++ n ∷ []) s ≡ (s', err e)
      → Still p v s s'
  unfolding mkdir generate_secret
  mkdir-Still ps n s s' e h =
      let path = ps ++ n ∷ [] in
      elim (give-eq-err (split p v path MountError.root_given) s _ h) [
        | inl same ↦ Still-eq p v s s' same
        | inr (r, f1) ↦
            elim (give-eq-err
              (or_missing p v (get_node_at_path p v [] s.inner.entry r.0 s.world.store)) s _ f1) [
                | inl same ↦ Still-eq p v s s' same
                | inr (d, f2) ↦
                    elim (fail_if-eq-err (is_some (get_link p r.1 d))
                      (MountError.path_already_exists path) s _ f2) [
                        | inl same ↦ Still-eq p v s s' same
                        | inr f3 ↦
                            let k = v.generate s.world.draws in
                            let s1 : Session p v = record s {
                              world = record s.world { draws = s.world.draws + 1 };
                            } in
                            let m = put_node_in_blobs p v (new_node p) k in
                            let first : Still p v s s1 = record {
                              same_inner = refl;
                              grown = λ i b g. g;
                            } in
                            elim (on_blobs-eq-err p v m s1 _ f3) [
                              | inl (w, q, x, same) ↦ Still-trans s s1 s' first (
                                  grown-Still m s1 s' w q (put_node-Grows p v sl (new_node p) k) x
                                    same)
                              | inr (w, l, x, f4) ↦
                                  let s2 : Session p v = record s { world = w } in
                                  let second =
                                    grown-Still m s1 s2 w (ok l)
                                      (put_node-Grows p v sl (new_node p) k) x refl in
                                  elim (after-eq-err
                                    (replace_link p v (dir_link l k) path (v.hash l ∷ []) s2) _
                                    f4) [
                                      | inl y ↦
                                          Still-trans s s2 s' (Still-trans s s1 s2 first second) (
                                            replace_link-Still (dir_link l k) ps n (v.hash l ∷ [])
                                              s2 s' e y)
                                      | inr (s3, u, y, f5) ↦ cc
                                    ]
                            ]
                      ]
              ]
      ]

  root_refused : (s : Session p v) → mkdir p v [] s ≡ (s, err MountError.root_given)
  unfolding mkdir split parent
  root_refused s = refl

  -- However a `mkdir` ends, every file that could be read reads the same.
  pub mkdir-KeepsFiles :
      (path : FilePath) (s s' : Session p v) (r : Result (MountError p) (Unit {0}))
      → mkdir p v path s ≡ (s', r)
      → KeepsFiles p v s s'
  mkdir-KeepsFiles path s s' r h = elim (snoc-cases path) [
    | inl e ↦
        let same =
          sym (ap (λ x. x.0) (sym (root_refused s) ∙ ap (λ q. mkdir p v q s) (sym e) ∙ h)) in
        let c = Still-eq p v s s' same in
        grown-KeepsFiles p v s s' (ap (λ i. i.entry) c.same_inner) c.grown
    | inr (ps, n, e) ↦ by_result ps n r (ap (λ q. mkdir p v q s) (sym e) ∙ h)
  ]
    where
      by_result :
          (ps : FilePath) (n : Name) (r : Result (MountError p) (Unit {0}))
          → mkdir p v (ps ++ n ∷ []) s ≡ (s', r)
          → KeepsFiles p v s s'
      by_result ps n (ok u) h = mkdir-KeepsFiles_ok p v sl cl ps n s s' h
      by_result ps n (err e) h =
          let c = mkdir-Still ps n s s' e h in
          grown-KeepsFiles p v s s' (ap (λ i. i.entry) c.same_inner) c.grown
