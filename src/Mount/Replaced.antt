-- ===== src/Mount/Replaced.antt =====
-- The replacement of a link in a mount: what it leaves of the tree, of the blobs and of the log.
use jax_fs.Prelude.{
  ◌≡◌, refl, sym, ◌∙◌, ap, subst, Bool, true, Option, none, some, List, [], ◌∷◌, ◌++◌,
}
use jax_fs.Prelude.Results.{Result, ok}
use jax_fs.Ord.{Ord}
use jax_fs.FilePath.{Name, FilePath}
use jax_fs.PathOps.Op.{OpType, op_id_ord}
use jax_fs.PathOps.Log.{record_op}
use jax_fs.Manifest.Platform.{Platform}
use jax_fs.Mount.Node.{Node, NodeLink, data_link, dir_link, is_dir_link}
use jax_fs.Mount.Vault.{Vault, StoreLaws, CodecLaws}
use jax_fs.Mount.Act.{after, after-eq-ok}
use jax_fs.Mount.Blobs.{Effect, MountError, get_node_from_blobs}
use jax_fs.Mount.Walk.{set_node_link_at_path}
use jax_fs.Mount.Session.{Session, on_blobs, update, commit, log_op}
use jax_fs.Mount.Files.{reload, replace_link}
use jax_fs.Mount.Tree.{set_node_link_at_path-eq-set_at}
use jax_fs.Mount.Grows.{Extends, Extends-trans, Grows-eq, set_at-Grows}
use jax_fs.Mount.Seek.{apart, seek}
use jax_fs.Mount.Placed.{set_at-Placed}

module _ (p : Platform) (v : Vault p) where
  -- A call on the blobs that succeeded left the mount alone.
  pub on_blobs-eq :
      {A : Type 0} (m : Effect p v A) (s s' : Session p v) {r : Result (MountError p) A}
      → on_blobs p v m s ≡ (s', r)
      → (m s.world ≡ (s'.world, r)) × (s'.inner ≡ s.inner)
  on_blobs-eq m s s' e = (ap (λ x. (x.0.world, x.1)) e, sym (ap (λ x. x.0.inner) e))

  -- The link at a path of a mount.
  abbrev pub at : FilePath → Session p v → Option (NodeLink p)
  at path s = seek p v path s.inner.entry s.world.store

  pub reload-root :
      (l : NodeLink p) (root : Node p) (t : v.Store)
      → is_dir_link p l ≡ true
      → get_node_from_blobs p v l t ≡ ok root
      → reload p v l t ≡ ok (some root)
  unfolding reload
  reload-root (data_link l k d) root t i r = cc
  reload-root (dir_link l k) root t i r = rw r refl

module _ (p : Platform) (v : Vault p) ⦃ko : Ord p.Key⦄ ⦃ho : Ord v.Hash⦄ (sl : StoreLaws p v)
    (cl : CodecLaws p v) where
  pub record Replaced (path : FilePath) (link : NodeLink p) (s s' : Session p v) : Type 0 where
    pub grown : Extends p v s.world.store s'.world.store
    pub here : at p v path s' ≡ some link
    pub kept :
        (q : FilePath) (t : v.Store)
        → Extends p v s'.world.store t
        → apart path q ≡ true
        → seek p v q s'.inner.entry t ≡ seek p v q s.inner.entry t
    pub log_kept : s'.inner.ops_log ≡ s.inner.ops_log
    pub peer_kept : s'.inner.peer_id ≡ s.inner.peer_id

  pub replace_link-Replaced :
      (link : NodeLink p) (ps : FilePath) (name : Name) (hashes : List v.Hash) (s s' : Session p v)
      → replace_link p v link (ps ++ name ∷ []) hashes s ≡ (s', ok tt)
      → Replaced (ps ++ name ∷ []) link s s'
  unfolding replace_link commit
  replace_link-Replaced link ps name hashes s s' e =
      let m = set_node_link_at_path p v s.inner.entry link (ps ++ name ∷ []) in
      let (s1, r, e1, f1) = after-eq-ok (on_blobs p v m s) _ e in
      let (g, same) = on_blobs-eq p v m s s1 e1 in
      let g' = sym (set_node_link_at_path-eq-set_at p v s.inner.entry link ps name s.world) ∙ g in
      let c = set_at-Placed p v sl cl [] s.inner.entry ps name link r.0 r.1 s.world s1.world g' in
      let grown = Grows-eq p v sl s.world (set_at-Grows p v sl [] s.inner.entry ps name link) g' in
      let reloaded = reload-root p v r.0 c.root s1.world.store c.is_dir c.read in
      let f2 =
        subst
          (λ x.
            after (s1, x)
              (λ new_entry. update p v (λ i. commit p v r.1 new_entry (commit p v hashes none i)))
            ≡ (s', ok tt))
          reloaded f1 in
      subst (λ x. Replaced (ps ++ name ∷ []) link s x.0) f2
        record {
          grown = grown;
          here = c.here;
          kept = c.kept;
          log_kept = ap (λ i. i.ops_log) same;
          peer_kept = ap (λ i. i.peer_id) same;
        }

  -- A link that was put at a path and logged: an operation on the mount that succeeded.
  pub record Done (op_type : OpType) (path : FilePath) (content : Option p.Link) (is_dir : Bool)
      (link : NodeLink p) (s s' : Session p v) : Type 0 where
    pub grown : Extends p v s.world.store s'.world.store
    pub here : at p v path s' ≡ some link
    pub kept :
        (q : FilePath) → apart path q ≡ true → at p v q s' ≡ seek p v q s.inner.entry s'.world.store
    pub logged :
        s'.inner.ops_log ≡ (record_op s.inner.peer_id op_type path content is_dir s.inner.ops_log).0

  -- What was put before the call counts for the operation.
  pub Done-since :
      (op_type : OpType) (path : FilePath) (content : Option p.Link) (is_dir : Bool)
      (link : NodeLink p) (s s1 s' : Session p v)
      → Extends p v s.world.store s1.world.store
      → s1.inner ≡ s.inner
      → Done op_type path content is_dir link s1 s'
      → Done op_type path content is_dir link s s'
  Done-since op_type path content is_dir link s s1 s' ext same c = record {
    grown = Extends-trans p v s.world.store s1.world.store s'.world.store ext c.grown;
    here = c.here;
    kept = λ q a. c.kept q a ∙ ap (λ i. seek p v q i.entry s'.world.store) same;
    logged =
        c.logged ∙ ap (λ i. (record_op i.peer_id op_type path content is_dir i.ops_log).0) same;
  }

  pub replace_link-Done :
      (op_type : OpType) (content : Option p.Link) (is_dir : Bool) (link : NodeLink p)
      (ps : FilePath) (name : Name) (hashes : List v.Hash) (s s' : Session p v)
      → after
          (replace_link p v link (ps ++ name ∷ []) hashes s)
          (λ _. update p v (log_op p v op_type (ps ++ name ∷ []) content is_dir))
        ≡ (s', ok tt)
      → Done op_type (ps ++ name ∷ []) content is_dir link s s'
  unfolding log_op
  replace_link-Done op_type content is_dir link ps name hashes s s' e =
      let (s2, u, e2, f2) =
        after-eq-ok (replace_link p v link (ps ++ name ∷ []) hashes s)
          (λ _. update p v (log_op p v op_type (ps ++ name ∷ []) content is_dir)) e in
      let c = replace_link-Replaced link ps name hashes s s2 e2 in
      subst (λ x. Done op_type (ps ++ name ∷ []) content is_dir link s x.0) f2
        record {
          grown = c.grown;
          here = c.here;
          kept = λ q a. c.kept q s2.world.store (λ h b x. x) a;
          logged = rw (c.log_kept, c.peer_kept) refl;
        }
