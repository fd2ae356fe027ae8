-- ===== src/Mount/Adding.antt =====
-- crates/common/src/mount/mount_inner.rs, `add` and `mkdir`: what they put, and what they keep.
use jax_fs.Prelude.{
  ◌+◌, ◌≡◌, ◌≢◌, refl, sym, ◌∙◌, ap, true, false, none, some, [], ◌∷◌, ◌++◌, arith, inl, inr,
  is_some,
}
use jax_fs.Prelude.Results.{Result, ok, err}
use jax_fs.Ord.{Ord, u64_ord}
use jax_fs.Ord.Lex.{lex_ord}
use jax_fs.FilePath.{Name, FilePath, file_name, parent}
use jax_fs.PathOps.Op.{OpType, op_id_ord}
use jax_fs.Manifest.Platform.{Platform}
use jax_fs.Mount.Node.{get_link, NodeLink, data_link, dir_link, data_of_mime, new_node}
use jax_fs.Mount.Vault.{Vault, StoreLaws, CodecLaws}
use jax_fs.Mount.Act.{after, give-eq-ok, fail_if-eq-ok}
use jax_fs.Mount.Blobs.{
  World, Effect, MountError, get_node_from_blobs, read_secret, generate_secret, put_secret,
  put_node_in_blobs,
}
use jax_fs.Mount.Walk.{get_node_at_path, set_node_link_at_path}
use jax_fs.Mount.Session.{
  ls, blame_path, list_links, split, Session, on_blobs, get_mount_link, cat, read_data,
}
use jax_fs.Mount.Files.{or_missing, replace_link, add, mkdir}
use jax_fs.Mount.Grows.{
  Grows-eq, put_secret-Grows, put_node-Grows, read_secret-Extends, read-put_secret,
  get_node-Extends,
}
use jax_fs.Mount.Placed.{read-put_node}
use jax_fs.Mount.Seek.{walk-seek, apart}
use jax_fs.Mount.Kept.{snoc-cases, get_of_at, Done-Keeps}
use jax_fs.Mount.Replaced.{Done, Done-since, replace_link-Done}

module _ (p : Platform) (v : Vault p) where
  -- A call that changes the blobs first.
  pub after-on_blobs :
      {A : Type 0} {B : Type 0} (m : Effect p v A) (s : Session p v)
      (f : A → Session p v → Session p v × Result (MountError p) B) {s' : Session p v} {b : B}
      → after (on_blobs p v m s) f ≡ (s', ok b)
      → (w : World p v) × (a : A) × (m s.world ≡ (w, ok a))
        × (f a (record s { world = w }) ≡ (s', ok b))
  after-on_blobs {A} {B} m s f {s'} {b} h = go (m s.world) h
    where
      go :
          (x : World p v × Result (MountError p) A)
          → after (record s { world = x.0 }, x.1) f ≡ (s', ok b)
          → (w : World p v) × (a : A) × (x ≡ (w, ok a))
            × (f a (record s { world = w }) ≡ (s', ok b))
      go (w, ok a) h = (w, a, refl, h)
      go (w, err e) h = cc

module _ (p : Platform) (v : Vault p) ⦃ko : Ord p.Key⦄ ⦃ho : Ord v.Hash⦄ (sl : StoreLaws p v)
    (cl : CodecLaws p v) where
  add-Done :
      (ps : FilePath) (n : Name) (bytes : p.Bytes) (s s' : Session p v)
      → add p v (ps ++ n ∷ []) bytes s ≡ (s', ok tt)
      → (l : p.Link) × (k : p.Secret) × Done p v sl cl OpType.add
          (ps ++ n ∷ [])
          (some l)
          false
          (data_link l k (data_of_mime p (v.mime_of (ps ++ n ∷ []))))
          s
          s'
        × (read_secret p v l k s'.world.store ≡ ok bytes)
  unfolding add generate_secret
  add-Done ps n bytes s s' e =
      let k = v.generate s.world.draws in
      let w1 : World p v = record s.world { draws = s.world.draws + 1 } in
      let (w2, l, e2, f2) =
        after-on_blobs p v (put_secret p v (some bytes) k) (record s { world = w1 }) _ e in
      let (b, f, r) = read-put_secret p v sl cl (some bytes) k w1 w2 l e2 in
      let ext = Grows-eq p v sl w1 (put_secret-Grows p v sl (some bytes) k) e2 in
      let s2 : Session p v = record s { world = w2 } in
      let node_link = data_link l k (data_of_mime p (v.mime_of (ps ++ n ∷ []))) in
      let c =
        replace_link-Done p v sl cl OpType.add (some l) false node_link ps n (v.hash l ∷ []) s2 s'
          f2 in
      let there = read_secret-Extends p v l k b w2.store s'.world.store c.grown r in
      let since =
        Done-since p v sl cl OpType.add (ps ++ n ∷ []) (some l) false node_link s s2 s' ext refl
          c in
      (l, k, since, ground (arith, f, there))

  add_root : (bytes : p.Bytes) (s s' : Session p v) → add p v [] bytes s ≢ (s', ok tt)
  unfolding add generate_secret replace_link set_node_link_at_path file_name
  add_root bytes s s' e =
      let k = v.generate s.world.draws in
      let w1 : World p v = record s.world { draws = s.world.draws + 1 } in
      let (w2, l, e2, f2) =
        after-on_blobs p v (put_secret p v (some bytes) k) (record s { world = w1 }) _ e in
      cc

  -- `add-Done` at any path.
  add-put :
      (path : FilePath) (bytes : p.Bytes) (s s' : Session p v)
      → add p v path bytes s ≡ (s', ok tt)
      → (l : p.Link) × (k : p.Secret) × Done p v sl cl OpType.add path
          (some l)
          false
          (data_link l k (data_of_mime p (v.mime_of path)))
          s
          s'
        × (read_secret p v l k s'.world.store ≡ ok bytes)
  add-put path bytes s s' h = elim (snoc-cases path) [
    | inl e ↦ absurd (add_root bytes s s' (ap (λ q. add p v q bytes s) (sym e) ∙ h))
    | inr (ps, n, e) ↦ rw e (add-Done ps n bytes s s' (ap (λ q. add p v q bytes s) (sym e) ∙ h))
  ]

  -- Over blobs, encryption and codecs that keep their laws: when `add` succeeds, `cat` of the path
  -- gives the bytes that were added.
  pub cat-add :
      (path : FilePath) (bytes : p.Bytes) (s s' : Session p v)
      → add p v path bytes s ≡ (s', ok tt)
      → cat p v path s' ≡ ok bytes
  unfolding cat read_data
  cat-add path bytes s s' h =
      let (l, k, c, r) = add-put path bytes s s' h in
      rw (get_of_at p v path s' (data_link l k (data_of_mime p (v.mime_of path))) c.here) r

  -- Over blobs, encryption and codecs that keep their laws: when `add` succeeds, every file that `cat`
  -- could read at a path apart from the new one has the bytes that it had.
  pub cat-add-apart :
      (path q : FilePath) (bytes b : p.Bytes) (s s' : Session p v)
      → add p v path bytes s ≡ (s', ok tt)
      → apart path q ≡ true
      → cat p v q s ≡ ok b
      → cat p v q s' ≡ ok b
  cat-add-apart path q bytes b s s' h a =
      let (l, k, c, r) = add-put path bytes s s' h in (Done-Keeps p v sl cl s s' c).keeps_cat q b a

  mkdir-Done :
      (ps : FilePath) (n : Name) (s s' : Session p v)
      → mkdir p v (ps ++ n ∷ []) s ≡ (s', ok tt)
      → (l : p.Link) × (k : p.Secret) × Done p v sl cl OpType.mkdir
          (ps ++ n ∷ [])
          none
          true
          (dir_link l k)
          s
          s'
        × (get_node_from_blobs p v (dir_link l k) s'.world.store ≡ ok (new_node p))
  unfolding mkdir generate_secret
  mkdir-Done ps n s s' e =
      let path = ps ++ n ∷ [] in
      let (r, e1, f1) = give-eq-ok (split p v path MountError.root_given) s _ e in
      let (d, e2, f2) =
        give-eq-ok (or_missing p v (get_node_at_path p v [] s.inner.entry r.0 s.world.store)) s _
          f1 in
      let (new, f3) =
        fail_if-eq-ok (is_some (get_link p r.1 d)) (MountError.path_already_exists path) s _ f2 in
      let k = v.generate s.world.draws in
      let w1 : World p v = record s.world { draws = s.world.draws + 1 } in
      let (w2, l, e4, f4) =
        after-on_blobs p v (put_node_in_blobs p v (new_node p) k) (record s { world = w1 }) _ f3 in
      let ext = Grows-eq p v sl w1 (put_node-Grows p v sl (new_node p) k) e4 in
      let read = read-put_node p v sl cl (new_node p) k w1 w2 l e4 in
      let s2 : Session p v = record s { world = w2 } in
      let c =
        replace_link-Done p v sl cl OpType.mkdir none true (dir_link l k) ps n (v.hash l ∷ []) s2 s'
          f4 in
      (
        l,
        k,
        Done-since p v sl cl OpType.mkdir (ps ++ n ∷ []) none true (dir_link l k) s s2 s' ext refl
            c,
        get_node-Extends p v (dir_link l k) (new_node p) w2.store s'.world.store c.grown read,
      )

  mkdir_root : (s s' : Session p v) → mkdir p v [] s ≢ (s', ok tt)
  unfolding mkdir split parent
  mkdir_root s s' e = cc

  pub mkdir-put :
      (path : FilePath) (s s' : Session p v)
      → mkdir p v path s ≡ (s', ok tt)
      → (l : p.Link) × (k : p.Secret) × Done p v sl cl OpType.mkdir path none true
          (dir_link l k)
          s
          s'
        × (get_node_from_blobs p v (dir_link l k) s'.world.store ≡ ok (new_node p))
  mkdir-put path s s' h = elim (snoc-cases path) [
    | inl e ↦ absurd (mkdir_root s s' (ap (λ q. mkdir p v q s) (sym e) ∙ h))
    | inr (ps, n, e) ↦ rw e (mkdir-Done ps n s s' (ap (λ q. mkdir p v q s) (sym e) ∙ h))
  ]

  -- Over blobs, encryption and codecs that keep their laws: when `mkdir` succeeds, `ls` of the path
  -- succeeds with no items.
  pub ls-mkdir :
      (path : FilePath) (s s' : Session p v)
      → mkdir p v path s ≡ (s', ok tt)
      → ls p v path s' ≡ ok []
  unfolding ls blame_path list_links
  ls-mkdir path s s' h =
      let (l, k, c, r) = mkdir-put path s s' h in
      rw (walk-seek p v [] s'.inner.entry path s'.world.store (dir_link l k) (new_node p) c.here r)
        refl

  -- When `mkdir` succeeds, every link at a path apart from the new directory is still there.
  pub get-mkdir-apart :
      (path q : FilePath) (link : NodeLink p) (s s' : Session p v)
      → mkdir p v path s ≡ (s', ok tt)
      → apart path q ≡ true
      → get_mount_link p v q s ≡ ok link
      → get_mount_link p v q s' ≡ ok link
  get-mkdir-apart path q link s s' h a =
      let (l, k, c, r) = mkdir-put path s s' h in (Done-Keeps p v sl cl s s' c).keeps_get q link a
