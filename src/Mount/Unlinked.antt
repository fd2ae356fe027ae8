-- ===== src/Mount/Unlinked.antt =====
-- What the removal of a link leaves of the tree.
use jax_fs.Prelude.{
  ◌+◌, ◌≡◌, ◌≢◌, refl, sym, ◌∙◌, ap, subst, true, none, some, List, [], ◌∷◌, ◌++◌, arith, inl, inr,
}
use jax_fs.Prelude.Results.{ok, ok_or}
use jax_fs.Ord.{Ord, u64_ord}
use jax_fs.Ord.Lex.{lex_ord}
use jax_fs.FilePath.{Name, FilePath, file_name}
use jax_fs.Manifest.Platform.{Platform}
use jax_fs.Mount.Node.{IsValid, Node, NodeLink, dir_link, get_link, del_link}
use jax_fs.Mount.Vault.{Vault, StoreLaws, CodecLaws}
use jax_fs.Mount.Act.{after-eq-ok, give-eq-ok}
use jax_fs.Mount.Blobs.{World, MountError, generate_secret, put_node_in_blobs}
use jax_fs.Mount.Walk.{get_node_at_path, set_node_link_at_path}
use jax_fs.Mount.Session.{Session, commit, split}
use jax_fs.Mount.Files.{replace_link, store_parent, unlink, remove_link}
use jax_fs.Mount.Grows.{Extends, Extends-trans, Grows-eq, put_node-Grows, get_node-Extends}
use jax_fs.Mount.Seek.{apart, seek, walk-seek, seek-walk, walk-Extends}
use jax_fs.Mount.Placed.{read-put_node}
use jax_fs.Mount.Replaced.{at, Replaced, replace_link-Replaced}
use jax_fs.Mount.Kept.{snoc-cases}
use jax_fs.Mount.Adding.{after-on_blobs}
use jax_fs.Mount.Entries.{
  apart-snoc, walk-IsValid, seek-del_link, seek_name, split-eq, seek-del_link_self,
}

module _ (p : Platform) (v : Vault p) (sl : StoreLaws p v) (cl : CodecLaws p v) where
  -- A directory that was put in place of another.
  record Parent (d : Node p) (ps : FilePath) (s s' : Session p v) : Type 0 where
    pub grown : Extends p v s.world.store s'.world.store
    pub inside :
        (m : Name) (q : FilePath) (t : v.Store)
        → Extends p v s'.world.store t
        → seek p v (ps ++ m ∷ q) s'.inner.entry t ≡ seek p v (m ∷ q) d t
    pub outside :
        (q : FilePath) (t : v.Store)
        → Extends p v s'.world.store t
        → apart ps q ≡ true
        → seek p v q s'.inner.entry t ≡ seek p v q s.inner.entry t
    pub log_kept : s'.inner.ops_log ≡ s.inner.ops_log
    pub peer_kept : s'.inner.peer_id ≡ s.inner.peer_id

module _ (p : Platform) (v : Vault p) ⦃ko : Ord p.Key⦄ ⦃ho : Ord v.Hash⦄ (sl : StoreLaws p v)
    (cl : CodecLaws p v) where
  pub replace_link_root :
      (link : NodeLink p) (hashes : List v.Hash) (s s' : Session p v)
      → replace_link p v link [] hashes s ≢ (s', ok tt)
  unfolding replace_link set_node_link_at_path file_name
  replace_link_root link hashes s s' h = cc

  pub replace_link-Replaced_any :
      (link : NodeLink p) (path : FilePath) (hashes : List v.Hash) (s s' : Session p v)
      → replace_link p v link path hashes s ≡ (s', ok tt)
      → Replaced p v sl cl path link s s'
  replace_link-Replaced_any link path hashes s s' h = elim (snoc-cases path) [
    | inl e ↦ absurd (
        replace_link_root link hashes s s' (ap (λ x. replace_link p v link x hashes s) (sym e) ∙ h))
    | inr (ps, n, e) ↦
        subst (λ x. Replaced p v sl cl x link s s') (sym e)
          (replace_link-Replaced p v sl cl link ps n hashes s s'
            (ap (λ x. replace_link p v link x hashes s) (sym e) ∙ h))
  ]

  store_parent-Parent :
      (d : Node p) (ps : FilePath) (s s' : Session p v)
      → store_parent p v d ps s ≡ (s', ok tt)
      → Parent p v sl cl d ps s s'
  unfolding store_parent generate_secret commit apart
  store_parent-Parent d [] s s' e =
      let k = v.generate s.world.draws in
      let w1 : World p v = record s.world { draws = s.world.draws + 1 } in
      let (w2, l, e2, f2) =
        after-on_blobs p v (put_node_in_blobs p v d k) (record s { world = w1 }) _ e in
      let ext = Grows-eq p v sl w1 (put_node-Grows p v sl d k) e2 in
      subst (λ x. Parent p v sl cl d [] s x.0) f2
        record {
          grown = ext;
          inside = λ m q t x. refl;
          outside = λ q t x a. cc;
          log_kept = refl;
          peer_kept = refl;
        }
  store_parent-Parent d (a ∷ rest) s s' e =
      let k = v.generate s.world.draws in
      let w1 : World p v = record s.world { draws = s.world.draws + 1 } in
      let (w2, l, e2, f2) =
        after-on_blobs p v (put_node_in_blobs p v d k) (record s { world = w1 }) _ e in
      let ext = Grows-eq p v sl w1 (put_node-Grows p v sl d k) e2 in
      let read = read-put_node p v sl cl d k w1 w2 l e2 in
      let c =
        replace_link-Replaced_any (dir_link l k) (a ∷ rest) (v.hash l ∷ [])
          (record s { world = w2 }) s' f2 in
      let there = get_node-Extends p v (dir_link l k) d w2.store s'.world.store c.grown read in
      let walk =
        walk-seek p v [] s'.inner.entry (a ∷ rest) s'.world.store (dir_link l k) d c.here there in
      record {
        grown = Extends-trans p v s.world.store w2.store s'.world.store ext c.grown;
        inside = λ m q t x.
            seek-walk p v [] s'.inner.entry (a ∷ rest) d m q t
              (walk-Extends p v [] s'.inner.entry (a ∷ rest) d s'.world.store t x walk);
        outside = c.kept;
        log_kept = c.log_kept;
        peer_kept = c.peer_kept;
      }

  -- A link that was removed.
  pub record Unlinked (path : FilePath) (link : NodeLink p) (s s' : Session p v) : Type 0 where
    pub grown : Extends p v s.world.store s'.world.store
    pub was : at p v path s ≡ some link
    pub gone : (t : v.Store) → Extends p v s'.world.store t → seek p v path s'.inner.entry t ≡ none
    pub kept :
        (q : FilePath) (t : v.Store)
        → Extends p v s'.world.store t
        → apart path q ≡ true
        → seek p v q s'.inner.entry t ≡ seek p v q s.inner.entry t
    pub log_kept : s'.inner.ops_log ≡ s.inner.ops_log
    pub peer_kept : s'.inner.peer_id ≡ s.inner.peer_id

  unlink-Unlinked :
      (ps : FilePath) (n : Name) (path : FilePath) (link : NodeLink p) (s s' : Session p v)
      → IsValid p s.inner.entry
      → unlink p v path ps n s ≡ (s', ok link)
      → Unlinked (ps ++ n ∷ []) link s s'
  unfolding unlink
  unlink-Unlinked ps n path link s s' i e =
      let (d, e1, f1) = give-eq-ok (get_node_at_path p v [] s.inner.entry ps s.world.store) s _ e in
      let (k, e2, f2) =
        give-eq-ok (ok_or (get_link p n d) (MountError.path_not_found path)) s _ f1 in
      let (s1, u, e3, f3) = after-eq-ok (store_parent p v (del_link p n d) ps s) _ f2 in
      let c = store_parent-Parent (del_link p n d) ps s s1 e3 in
      let sorted = walk-IsValid p v sl cl [] s.inner.entry ps d s.world.store i e1 in
      let same : k ≡ link = ground (arith, f3) in
      let walk = λ (t : v.Store) (x : Extends p v s1.world.store t).
        walk-Extends p v [] s.inner.entry ps d s.world.store t
          (Extends-trans p v s.world.store s1.world.store t c.grown x) e1 in
      let there : get_link p n d ≡ some link = ground (arith, e2, same) in
      subst (λ x. Unlinked (ps ++ n ∷ []) link s x.0) f3
        record {
          grown = c.grown;
          was =
              seek-walk p v [] s.inner.entry ps d n [] s.world.store e1
              ∙ seek_name p v sl cl n d link s.world.store there;
          gone = λ t x. c.inside n [] t x ∙ seek-del_link_self p v sl cl n d t sorted;
          kept = λ q t x a. elim (apart-snoc ps n q a) [
            | inl b ↦ c.outside q t x b
            | inr (m, r, f, g) ↦
                subst (λ y. seek p v y s1.inner.entry t ≡ seek p v y s.inner.entry t) (sym f)
                  (c.inside m r t x
                    ∙ seek-del_link p v sl cl n m r d t sorted g
                    ∙ sym (seek-walk p v [] s.inner.entry ps d m r t (walk t x)))
          ];
          log_kept = c.log_kept;
          peer_kept = c.peer_kept;
        }

  pub remove_link-Unlinked :
      (path : FilePath) (link : NodeLink p) (s s' : Session p v)
      → IsValid p s.inner.entry
      → remove_link p v path s ≡ (s', ok link)
      → Unlinked path link s s'
  unfolding remove_link
  remove_link-Unlinked path link s s' i e =
      let (r, e1, f1) = give-eq-ok (split p v path MountError.root_given) s _ e in
      subst (λ x. Unlinked x link s s') (sym (split-eq p v sl cl path MountError.root_given r e1))
        (unlink-Unlinked r.0 r.1 path link s s' i f1)
