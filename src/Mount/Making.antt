-- ===== src/Mount/Making.antt =====
-- crates/common/src/mount/mount_inner.rs, `mkdir`: no outcome of it takes a file away.
use jax_fs.Prelude.{
  ◌+◌, ◌≡◌, ◌≢◌, refl, sym, ◌∙◌, ap, true, false, none, some, List, [], ◌∷◌, ◌++◌, arith, inl, inr,
  is_some, Bool-cases,
}
use jax_fs.Prelude.Results.{ok, Result-cases}
use mathlib.Core.List.{append-nil}
use jax_fs.Ord.{Ord, u64_ord, ◌==◌, eq_of_==}
use jax_fs.Ord.Lex.{lex_ord}
use jax_fs.FilePath.{Name, FilePath}
use jax_fs.PathOps.Op.{op_id_ord}
use jax_fs.Manifest.Platform.{Platform}
use jax_fs.Mount.Node.{Node, NodeLink, data_link, dir_link, get_link, new_node}
use jax_fs.Mount.Vault.{Vault, StoreLaws, CodecLaws}
use jax_fs.Mount.Act.{after-eq-ok, give-eq-ok, fail_if-eq-ok}
use jax_fs.Mount.Blobs.{World, MountError, put_node_in_blobs, generate_secret}
use jax_fs.Mount.Walk.{get_node_at_path, set_node_link_at_path}
use jax_fs.Mount.Session.{split, Session, on_blobs, read_data}
use jax_fs.Mount.Files.{or_missing, replace_link, mkdir, starts_with}
use jax_fs.Mount.Tree.{set_at, set_node_link_at_path-eq-set_at, parent-snoc, file_name-snoc_name}
use jax_fs.Mount.Moving.{starts_with-cases}
use jax_fs.Mount.Adding.{after-on_blobs, mkdir-put}
use jax_fs.Mount.Grows.{Extends, Grows-eq, put_node-Grows}
use jax_fs.Mount.Seek.{seek, seek-walk, seek_prefix, seek-Extends, to_option-walk}
use jax_fs.Mount.Kept.{Done-Keeps}
use jax_fs.Mount.Replaced.{at, on_blobs-eq}
use jax_fs.Mount.Unharmed.{KeepsFiles, link-cat, set_at_blocked}

-- A path that begins with another goes on from it.
starts_with-append :
    (path q : FilePath) → starts_with path q ≡ true → (r : FilePath) × (path ≡ q ++ r)
unfolding starts_with
starts_with-append path [] h = (path, refl)
starts_with-append [] (n ∷ q) h = cc
starts_with-append (m ∷ path) (n ∷ q) h = elim (Bool-cases (m == n)) [
  | inr f ↦ absurd (ground (arith, f, h))
  | inl t ↦
      let (r, e) = starts_with-append path q (ground (arith, t, h)) in (r, cc (e, eq_of_== m n t))
]

module _ (p : Platform) (v : Vault p) ⦃ko : Ord p.Key⦄ ⦃ho : Ord v.Hash⦄ (sl : StoreLaws p v)
    (cl : CodecLaws p v) where
  replace_link-set_at :
      (link : NodeLink p) (ps : FilePath) (name : Name) (hashes : List v.Hash) (s s' : Session p v)
      → replace_link p v link (ps ++ name ∷ []) hashes s ≡ (s', ok tt)
      → (w : World p v) × (x : NodeLink p × List v.Hash) × (set_at p v [] s.inner.entry ps name link
            s.world
          ≡ (w, ok x))
  unfolding replace_link
  replace_link-set_at link ps name hashes s s' e =
      let m = set_node_link_at_path p v s.inner.entry link (ps ++ name ∷ []) in
      let (s1, r, e1, f1) = after-eq-ok (on_blobs p v m s) _ e in
      let (g, same) = on_blobs-eq p v m s s1 e1 in
      (
        s1.world,
        r,
        sym (set_node_link_at_path-eq-set_at p v s.inner.entry link ps name s.world) ∙ g,
      )

  -- What a `mkdir` that succeeds has seen and done.
  record Made (ps : FilePath) (n : Name) (s : Session p v) : Type 0 where
    pub was_free : at p v (ps ++ n ∷ []) s ≡ none
    pub link : NodeLink p
    pub w2 : World p v
    pub w3 : World p v
    pub x : NodeLink p × List v.Hash
    pub grown : Extends p v s.world.store w2.store
    pub placed : set_at p v [] s.inner.entry ps n link w2 ≡ (w3, ok x)

  free_of_parent :
      (root d : Node p) (ps : FilePath) (n : Name) (t : v.Store)
      → or_missing p v (get_node_at_path p v [] root ps t) ≡ ok d
      → is_some (get_link p n d) ≡ false
      → seek p v (ps ++ n ∷ []) root t ≡ none
  unfolding or_missing
  free_of_parent root d ps n t h f = elim (Result-cases (get_node_at_path p v [] root ps t)) [
    | inl (c, e) ↦
        let same : c ≡ d = ground (arith, e, h) in
        let there = seek-walk p v [] root ps c n [] t e in
        there ∙ unfold seek in ground (arith, f, same)
    | inr (x, e) ↦ sym (to_option-walk p v [] root ps n t MountError.panicked) ∙ rw e refl
  ]

  split_snoc :
      (ps : FilePath) (n : Name) (e : MountError p) (r : FilePath × Name)
      → split p v (ps ++ n ∷ []) e ≡ ok r
      → (r.0 ≡ ps) × (r.1 ≡ n)
  unfolding split
  split_snoc ps n e r h =
      let both : ok (ps, n) ≡ ok r = sym (split_ok ps n e) ∙ h in
      (ground (arith, both), ground (arith, both))
    where
      split_ok :
          (ps : FilePath) (n : Name) (e : MountError p) → split p v (ps ++ n ∷ []) e ≡ ok (ps, n)
      split_ok ps n e = rw (parent-snoc ps n, file_name-snoc_name ps n) refl

  mkdir-Made :
      (ps : FilePath) (n : Name) (s s' : Session p v)
      → mkdir p v (ps ++ n ∷ []) s ≡ (s', ok tt)
      → Made ps n s
  unfolding mkdir generate_secret
  mkdir-Made ps n s s' e =
      let path = ps ++ n ∷ [] in
      let (r, e1, f1) = give-eq-ok (split p v path MountError.root_given) s _ e in
      let (up, last) = split_snoc ps n MountError.root_given r e1 in
      let (d, e2, f2) =
        give-eq-ok (or_missing p v (get_node_at_path p v [] s.inner.entry r.0 s.world.store)) s _
          f1 in
      let (new, f3) =
        fail_if-eq-ok (is_some (get_link p r.1 d)) (MountError.path_already_exists path) s _ f2 in
      let k = v.generate s.world.draws in
      let w1 : World p v = record s.world { draws = s.world.draws + 1 } in
      let (w2, l, e4, f4) =
        after-on_blobs p v (put_node_in_blobs p v (new_node p) k) (record s { world = w1 }) _ f3 in
      let ext = Grows-eq p v sl w1 (put_node-Grows p v sl (new_node p) k) e4 in
      let s2 : Session p v = record s { world = w2 } in
      let (s3, u, e5, f5) =
        after-eq-ok (replace_link p v (dir_link l k) path (v.hash l ∷ []) s2) _ f4 in
      let (w3, x, placed) = replace_link-set_at (dir_link l k) ps n (v.hash l ∷ []) s2 s3 e5 in
      record {
        was_free =
            free_of_parent s.inner.entry d ps n s.world.store
              (ap (λ q. or_missing p v (get_node_at_path p v [] s.inner.entry q s.world.store))
                  (sym up)
                ∙ e2)
              (ap (λ i. is_some (get_link p i d)) (sym last) ∙ new);
        link = dir_link l k;
        w2 = w2;
        w3 = w3;
        x = x;
        grown = ext;
        placed = placed;
      }

  not_blocked :
      (ps : FilePath) (n : Name) (q : FilePath) (l : NodeLink p) (b : p.Bytes) (s : Session p v)
      → Made ps n s
      → at p v q s ≡ some l
      → read_data p v q l s.world.store ≡ ok b
      → starts_with (ps ++ n ∷ []) q ≢ true
  unfolding read_data
  not_blocked ps n [] l b s c h r a = unfold seek in cc
  not_blocked ps n (i ∷ q) (dir_link x y) b s c h r a = cc
  not_blocked ps n (i ∷ q) (data_link x y d) b s c h r a =
      let (rest, e) = starts_with-append (ps ++ n ∷ []) (i ∷ q) a in
      let h' =
        seek-Extends p v (i ∷ q) s.inner.entry s.world.store c.w2.store (data_link x y d) c.grown
          h in
      ends rest e h'
    where
      ends :
          (rest : FilePath)
          → ps ++ n ∷ [] ≡ i ∷ q ++ rest
          → seek p v (i ∷ q) s.inner.entry c.w2.store ≢ some (data_link x y d)
      ends [] e h' =
          let same : ps ++ n ∷ [] ≡ i ∷ q = e ∙ append-nil (i ∷ q) in
          let free = ap (λ z. at p v z s) (sym same) ∙ c.was_free in ground (arith, free, h)
      ends (m ∷ rest) e h' =
          set_at_blocked p v [] s.inner.entry ps n i m q rest c.link x y d c.w2 c.w3 c.x c.placed e
            h'

  pub mkdir-KeepsFiles_ok :
      (ps : FilePath) (n : Name) (s s' : Session p v)
      → mkdir p v (ps ++ n ∷ []) s ≡ (s', ok tt)
      → KeepsFiles p v s s'
  mkdir-KeepsFiles_ok ps n s s' e = record {
    keeps = λ q b h.
        let c = mkdir-Made ps n s s' e in
        let (l, there, r) = link-cat p v q b s h in
        elim (starts_with-cases (ps ++ n ∷ []) q) [
          | inl x ↦ absurd (not_blocked ps n q l b s c there r x)
          | inr (inl x) ↦
              let (i, k, done, y) = mkdir-put p v sl cl (ps ++ n ∷ []) s s' e in
              (Done-Keeps p v sl cl s s' done).keeps_cat q b x h
          | inr (inr (m, rest, x)) ↦ absurd (covered ps n m rest q l s c.was_free there x)
        ];
  }
    where
      covered :
          (ps : FilePath) (n m : Name) (rest q : FilePath) (l : NodeLink p) (s : Session p v)
          → at p v (ps ++ n ∷ []) s ≡ none
          → at p v q s ≡ some l
          → q ≢ (ps ++ n ∷ []) ++ m ∷ rest
      covered [] n m rest q l s free h e =
          let h' = ap (λ z. at p v z s) (sym e) ∙ h in
          let (k, y) = seek_prefix p v n [] m rest s.inner.entry s.world.store l h' in
          ground (arith, free, y)
      covered (i ∷ ps) n m rest q l s free h e =
          let h' = ap (λ z. at p v z s) (sym e) ∙ h in
          let (k, y) = seek_prefix p v i (ps ++ n ∷ []) m rest s.inner.entry s.world.store l h' in
          ground (arith, free, y)
