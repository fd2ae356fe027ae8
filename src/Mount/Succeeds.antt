-- ===== src/Mount/Succeeds.antt =====
-- crates/common/src/mount/mount_inner.rs: `add` succeeds where nothing that it stands on fails.
use jax_fs.Prelude.{
  ℕ, ◌+◌, ◌≡◌, refl, ◌∙◌, subst, false, Option, none, some, List, [], ◌∷◌, ◌++◌, arith, inl, inr,
}
use jax_fs.Prelude.Results.{ok, Result-cases}
use jax_fs.Ord.{Ord, u64_ord}
use jax_fs.Ord.Lex.{lex_ord}
use jax_fs.BTreeMap.Sorted.{insert-IsSorted}
use jax_fs.FilePath.{Name, FilePath}
use jax_fs.PathOps.Op.{OpType, op_id_ord}
use jax_fs.Manifest.Platform.{Platform}
use jax_fs.Mount.Node.{
  IsValid, Node, NodeLink, data_link, dir_link, data_of_mime, new_node, get_link, insert_link,
}
use jax_fs.Mount.Vault.{Vault, StoreLaws, CodecLaws}
use jax_fs.Mount.Blobs.{World, generate_secret, encrypt, put_blob, put_secret, put_node_in_blobs}
use jax_fs.Mount.Walk.{enter, descend, store_dir}
use jax_fs.Mount.Session.{Session, commit, log_op}
use jax_fs.Mount.Files.{replace_link, add}
use jax_fs.Mount.Tree.{set_at, set_node_link_at_path-eq-set_at}
use jax_fs.Mount.Grows.{Extends, Grows-eq, put_secret-Grows, get_node-Extends}
use jax_fs.Mount.Placed.{set_at-Placed}
use jax_fs.Mount.Replaced.{reload-root}
use jax_fs.Mount.Entries.{get_node-IsValid}

-- A vault that refuses nothing it should take.
pub record WriteLaws (p : Platform) (v : Vault p) : Type 0 where
  pub put_some : (b : p.Bytes) (s : v.Store) → (h : v.Hash) × ((v.put b s).1 ≡ some h)
  pub encrypt_some :
      (n : ℕ) (k : p.Secret) (b : p.Bytes) → (c : p.Bytes) × (v.encrypt n k b ≡ some c)
  pub encode_node_some : (n : Node p) → IsValid p n → (b : p.Bytes) × (v.encode_node n ≡ some b)

module _ (p : Platform) (v : Vault p) (sl : StoreLaws p v) (cl : CodecLaws p v)
    (wl : WriteLaws p v) where
  put_secret-ok :
      (b : p.Bytes) (k : p.Secret) (w : World p v)
      → (w' : World p v) × (l : p.Link) × (put_secret p v (some b) k w ≡ (w', ok l))
  unfolding put_secret encrypt put_blob
  put_secret-ok b k w =
      let (c, e) = wl.encrypt_some w.draws k b in
      let (h, f) = wl.put_some c w.store in
      (record { store = (v.put c w.store).0; draws = w.draws + 1 }, v.raw_link h, rw (e, f) refl)

  store_dir-ok :
      (node : Node p) (name : Name) (link : NodeLink p) (hs : List v.Hash) (w : World p v)
      → IsValid p node
      → (w' : World p v) × (r : NodeLink p × List v.Hash) × (store_dir p v node name link hs w
          ≡ (w', ok r))
  unfolding store_dir generate_secret put_node_in_blobs insert_link
  store_dir-ok node name link hs w i =
      let k = v.generate w.draws in
      let w1 : World p v = record w { draws = w.draws + 1 } in
      let (b, e) =
        wl.encode_node_some (insert_link p name link node)
          (insert-IsSorted name link node.links i) in
      let (w2, l, f) = put_secret-ok b k w1 in
      (w2, (dir_link l k, hs ++ v.hash l ∷ []), rw (e, f) refl)

  enter-IsValid :
      (consumed : FilePath) (o : Option (NodeLink p)) (s : v.Store) (child : Node p)
      → enter p v consumed o s ≡ ok child
      → IsValid p child
  unfolding enter
  enter-IsValid consumed none s child h =
      let same : new_node p ≡ child = ground (arith, h) in subst (IsValid p) same tt
  enter-IsValid consumed (some (dir_link l k)) s child h =
      get_node-IsValid p v sl cl (dir_link l k) s child h
  enter-IsValid consumed (some (data_link l k d)) s child h = cc

  enter-Extends :
      (consumed : FilePath) (o : Option (NodeLink p)) (s t : v.Store) (child : Node p)
      → Extends p v s t
      → enter p v consumed o s ≡ ok child
      → enter p v consumed o t ≡ ok child
  unfolding enter
  enter-Extends consumed none s t child x h = h
  enter-Extends consumed (some (dir_link l k)) s t child x h =
      get_node-Extends p v (dir_link l k) child s t x h
  enter-Extends consumed (some (data_link l k d)) s t child x h = cc

  -- Where the way to the parent can be walked, the recursion succeeds.
  pub set_at-ok :
      (consumed : FilePath) (node : Node p) (visited result : List (FilePath × Node p))
      (ps : FilePath) (name : Name) (link : NodeLink p) (s : v.Store) (w : World p v)
      → IsValid p node
      → Extends p v s w.store
      → descend p v consumed node visited ps s ≡ ok result
      → (w' : World p v) × (r : NodeLink p × List v.Hash) × (set_at p v consumed node ps name link w
          ≡ (w', ok r))
  unfolding descend set_at
  set_at-ok consumed node visited result [] name link s w i x h = store_dir-ok node name link [] w i
  set_at-ok consumed node visited result (part ∷ rest) name link s w i x h =
      elim (Result-cases (enter p v (consumed ++ part ∷ []) (get_link p part node) s)) [
        | inr (y, f) ↦ absurd (ground (arith, f, h))
        | inl (child, f) ↦
            let h' : descend p v (consumed ++ part ∷ []) child ((consumed, node) ∷ visited) rest s
                ≡ ok result =
              ground (arith, f, h) in
            let f' =
              enter-Extends (consumed ++ part ∷ []) (get_link p part node) s w.store child x f in
            let (w1, r, e) =
              set_at-ok (consumed ++ part ∷ []) child ((consumed, node) ∷ visited) result rest name
                link s w (enter-IsValid (consumed ++ part ∷ []) (get_link p part node) s child f) x
                h' in
            let (w2, r', e') = store_dir-ok node part r.0 r.1 w1 i in (w2, r', rw (f', e) e')
      ]

module _ (p : Platform) (v : Vault p) ⦃ko : Ord p.Key⦄ ⦃ho : Ord v.Hash⦄ (sl : StoreLaws p v)
    (cl : CodecLaws p v) (wl : WriteLaws p v) where
  replace_link-ok :
      (link : NodeLink p) (ps : FilePath) (name : Name) (hashes : List v.Hash)
      (result : List (FilePath × Node p)) (old : v.Store) (s : Session p v)
      → IsValid p s.inner.entry
      → Extends p v old s.world.store
      → descend p v [] s.inner.entry [] ps old ≡ ok result
      → (s' : Session p v) × (replace_link p v link (ps ++ name ∷ []) hashes s ≡ (s', ok tt))
  unfolding replace_link
  replace_link-ok link ps name hashes result old s i x h =
      let (w', r, e) =
        set_at-ok p v sl cl wl [] s.inner.entry [] result ps name link old s.world i x h in
      let e' = set_node_link_at_path-eq-set_at p v s.inner.entry link ps name s.world ∙ e in
      let c = set_at-Placed p v sl cl [] s.inner.entry ps name link r.0 r.1 s.world w' e in
      let reloaded = reload-root p v r.0 c.root w'.store c.is_dir c.read in
      (
        record {
          inner = commit p v r.1 (some c.root) (commit p v hashes none s.inner);
          world = w';
        },
        rw (e', reloaded) refl,
      )

  -- Where blobs, encryption and codecs keep their laws and refuse no write (of nodes, none whose names
  -- are sorted), the names of the root are sorted, and the way to the parent can be walked (no
  -- component of it is a file, and every directory that is there can be read), `add` succeeds.
  pub add_succeeds :
      (parent_path : FilePath) (name : Name) (bytes : p.Bytes) (visited : List (FilePath × Node p))
      (s : Session p v)
      → IsValid p s.inner.entry
      → descend p v [] s.inner.entry [] parent_path s.world.store ≡ ok visited
      → (s' : Session p v) × (add p v (parent_path ++ name ∷ []) bytes s ≡ (s', ok tt))
  unfolding add generate_secret
  add_succeeds ps name bytes visited s i h =
      let k = v.generate s.world.draws in
      let w1 : World p v = record s.world { draws = s.world.draws + 1 } in
      let (w2, l, e) = put_secret-ok p v sl cl wl bytes k w1 in
      let link = data_link l k (data_of_mime p (v.mime_of (ps ++ name ∷ []))) in
      let x = Grows-eq p v sl w1 (put_secret-Grows p v sl (some bytes) k) e in
      let (s3, f) =
        replace_link-ok link ps name (v.hash l ∷ []) visited s.world.store (record s { world = w2 })
          i x h in
      (
        record s3 { inner = log_op p v OpType.add (ps ++ name ∷ []) (some l) false s3.inner },
        rw (e, f) refl,
      )
