-- ===== src/Mount/Placed.antt =====
-- What the replacement of a link does to the tree: the link stands at its path, and every path apart
-- from it is as it was.
use jax_fs.Prelude.{
  ◌+◌, ◌≡◌, refl, sym, subst, Bool-cases, ◌∙◌, ap, true, false, Option, none, some, List, [], ◌∷◌,
  ◌++◌, arith, inl, inr,
}
use jax_fs.Prelude.Results.{ok}
use jax_fs.Ord.{u64_ord, ◌==◌, eq_of_==}
use jax_fs.Ord.Lex.{lex_ord}
use jax_fs.BTreeMap.{get-insert, get-insert_self}
use jax_fs.FilePath.{Name, FilePath}
use jax_fs.Manifest.Platform.{Platform}
use jax_fs.Mount.Node.{Node, NodeLink, data_link, dir_link, get_link, insert_link, is_dir_link}
use jax_fs.Mount.Vault.{Vault, StoreLaws, CodecLaws}
use jax_fs.Mount.Act.{after, pure, after-eq-ok}
use jax_fs.Mount.Blobs.{World, get_node_from_blobs, generate_secret, put_node_in_blobs}
use jax_fs.Mount.Walk.{enter, store_dir}
use jax_fs.Mount.Tree.{set_at}
use jax_fs.Mount.Grows.{
  Extends, Extends-trans, Grows-eq, get_node-Extends, read-put_secret, store_dir-Grows,
  set_at-Grows,
}
use jax_fs.Mount.Seek.{apart, below, below-cons, seek, seek-new_node, seek-Extends}

module _ (p : Platform) (v : Vault p) (sl : StoreLaws p v) (cl : CodecLaws p v) where
  -- A node that is put is read back.
  pub read-put_node :
      (node : Node p) (k : p.Secret) (w w' : World p v) (l : p.Link)
      → put_node_in_blobs p v node k w ≡ (w', ok l)
      → get_node_from_blobs p v (dir_link l k) w'.store ≡ ok node
  unfolding put_node_in_blobs get_node_from_blobs
  read-put_node node k w w' l e =
      let (b, f, r) = read-put_secret p v sl cl (v.encode_node node) k w w' l e in
      let d = cl.decode-encode_node node b f in ground (arith, r, d)

  store_dir-Stored :
      (node : Node p) (name : Name) (link l : NodeLink p) (hs hs' : List v.Hash) (w w' : World p v)
      → store_dir p v node name link hs w ≡ (w', ok (l, hs'))
      → (is_dir_link p l ≡ true)
        × (get_node_from_blobs p v l w'.store ≡ ok (insert_link p name link node))
  unfolding store_dir generate_secret
  store_dir-Stored node name link l hs hs' w w' e =
      let k = v.generate w.draws in
      let w1 : World p v = record w { draws = w.draws + 1 } in
      let f : after (put_node_in_blobs p v (insert_link p name link node) k w1)
            (λ d. pure (dir_link d k, hs ++ v.hash d ∷ []))
          ≡ (w', ok (l, hs')) =
        e in
      let (w2, d, e2, f2) =
        after-eq-ok (put_node_in_blobs p v (insert_link p name link node) k w1) _ f in
      let r = read-put_node (insert_link p name link node) k w1 w2 d e2 in
      (ground (arith, f2), ground (arith, f2, r))

  pub record Placed (path : FilePath) (node : Node p) (link l : NodeLink p) (s : v.Store)
      : Type 0 where
    pub root : Node p
    pub is_dir : is_dir_link p l ≡ true
    pub read : get_node_from_blobs p v l s ≡ ok root
    pub here : seek p v path root s ≡ some link
    pub kept :
        (q : FilePath) (t : v.Store)
        → Extends p v s t
        → apart path q ≡ true
        → seek p v q root t ≡ seek p v q node t

  -- The node under a directory that was entered, seen from its parent; `q` is below it.
  seek-enter :
      (consumed : FilePath) (o : Option (NodeLink p)) (child : Node p) (m : Name) (q : FilePath)
      (s t : v.Store)
      → Extends p v s t
      → enter p v consumed o s ≡ ok child
      → below p v o (m ∷ q) t (λ c. seek p v (m ∷ q) c t) ≡ seek p v (m ∷ q) child t
  unfolding enter
  seek-enter consumed none child m q s t e h =
      let f = seek-new_node p v (m ∷ q) t in ground (arith, f, h)
  seek-enter consumed (some (data_link l k d)) child m q s t e h = cc
  seek-enter consumed (some (dir_link l k)) child m q s t e h =
      rw (get_node-Extends p v (dir_link l k) child s t e h) refl

  -- A directory with one link replaced, seen on a path that begins with another name.
  seek-insert_link :
      (n m : Name) (q : FilePath) (link : NodeLink p) (node : Node p) (t : v.Store)
      → (m == n) ≡ false
      → seek p v (m ∷ q) (insert_link p n link node) t ≡ seek p v (m ∷ q) node t
  unfolding seek insert_link get_link
  seek-insert_link n m q link node t h = rw (get-insert n m link node.links, h) refl

  get-insert_link :
      (n : Name) (link : NodeLink p) (node : Node p)
      → get_link p n (insert_link p n link node) ≡ some link
  unfolding insert_link get_link
  get-insert_link n link node = get-insert_self n link node.links

  apart_root : (path : FilePath) → apart path [] ≡ false
  unfolding apart
  apart_root [] = refl
  apart_root (n ∷ path) = refl

  Placed-leaf :
      (n : Name) (node : Node p) (link l : NodeLink p) (s : v.Store)
      → (is_dir_link p l ≡ true) × (get_node_from_blobs p v l s ≡ ok (insert_link p n link node))
      → Placed (n ∷ []) node link l s
  unfolding seek apart
  Placed-leaf n node link l s (d, r) = record {
    root = insert_link p n link node;
    is_dir = d;
    read = r;
    here = rw (get-insert_link n link node) refl;
    kept = λ q t e a. leaf q t a;
  }
    where
      leaf :
          (q : FilePath) (t : v.Store)
          → apart (n ∷ []) q ≡ true
          → seek p v q (insert_link p n link node) t ≡ seek p v q node t
      leaf [] t a = refl
      leaf (m ∷ q) t a = seek-insert_link n m q link node t (ground (arith, a))

  Placed-node :
      (consumed : FilePath) (n : Name) (ps : FilePath) (name : Name) (node child : Node p)
      (link l1 l : NodeLink p) (s s1 s' : v.Store)
      → enter p v consumed (get_link p n node) s ≡ ok child
      → Extends p v s s1
      → Extends p v s1 s'
      → Placed (ps ++ name ∷ []) child link l1 s1
      → (is_dir_link p l ≡ true) × (get_node_from_blobs p v l s' ≡ ok (insert_link p n l1 node))
      → Placed (n ∷ ps ++ name ∷ []) node link l s'
  unfolding seek apart
  Placed-node consumed n ps name node child link l1 l s s1 s' e f g c (d, r) = record {
    root = insert_link p n l1 node;
    is_dir = d;
    read = r;
    here =
        rw
          (
            get-insert_link n l1 node,
            below-cons p v l1 ps name [] s' (λ x. seek p v (ps ++ name ∷ []) x s'),
            get_node-Extends p v l1 c.root s1 s' g c.read,
          )
          (seek-Extends p v (ps ++ name ∷ []) c.root s1 s' link g c.here);
    kept = λ q t x a. branch q t x a;
  }
    where
      inside :
          (q : FilePath) (t : v.Store)
          → Extends p v s' t
          → apart (ps ++ name ∷ []) q ≡ true
          → seek p v (n ∷ q) (insert_link p n l1 node) t ≡ seek p v (n ∷ q) node t
      inside [] t x a = cc (a, apart_root (ps ++ name ∷ []))
      inside (k ∷ q) t x a =
          let g' = Extends-trans p v s1 s' t g x in
          let f' = Extends-trans p v s s1 t f g' in
          rw (get-insert_link n l1 node, get_node-Extends p v l1 c.root s1 t g' c.read)
            (c.kept (k ∷ q) t g' a
              ∙ sym (seek-enter consumed (get_link p n node) child k q s t f' e))

      branch :
          (q : FilePath) (t : v.Store)
          → Extends p v s' t
          → apart (n ∷ ps ++ name ∷ []) q ≡ true
          → seek p v q (insert_link p n l1 node) t ≡ seek p v q node t
      branch [] t x a = refl
      branch (m ∷ q) t x a = elim (Bool-cases (m == n)) [
        | inr h ↦ seek-insert_link n m q l1 node t h
        | inl h ↦ let same = eq_of_== m n h in rw same (inside q t x (ground (arith, h, a)))
      ]

  -- The recursion leaves the link at its path and every path apart from it alone.
  pub set_at-Placed :
      (consumed : FilePath) (node : Node p) (ps : FilePath) (name : Name) (link l : NodeLink p)
      (hs : List v.Hash) (w w' : World p v)
      → set_at p v consumed node ps name link w ≡ (w', ok (l, hs))
      → Placed (ps ++ name ∷ []) node link l w'.store
  unfolding set_at
  set_at-Placed consumed node [] name link l hs w w' e =
      Placed-leaf name node link l w'.store (store_dir-Stored node name link l [] hs w w' e)
  set_at-Placed consumed node (part ∷ rest) name link l hs w w' e =
      let (w0, child, e0, f0) =
        after-eq-ok (w, enter p v (consumed ++ part ∷ []) (get_link p part node) w.store) _ e in
      let (w1, r, e1, f1) =
        after-eq-ok (set_at p v (consumed ++ part ∷ []) child rest name link w0) _ f0 in
      let c = set_at-Placed (consumed ++ part ∷ []) child rest name link r.0 r.1 w0 w1 e1 in
      let began : w0 ≡ w = sym (ap (λ x. x.0) e0) in
      let grown =
        Grows-eq p v sl w0 (set_at-Grows p v sl (consumed ++ part ∷ []) child rest name link) e1 in
      Placed-node (consumed ++ part ∷ []) part rest name node child link r.0 l w.store w1.store
        w'.store (ap (λ x. x.1) e0) (subst (λ x. Extends p v x.store w1.store) began grown)
        (Grows-eq p v sl w1 (store_dir-Grows p v sl node part r.0 r.1) f1) c
        (store_dir-Stored node part r.0 l r.1 hs w1 w' f1)
