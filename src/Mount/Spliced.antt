-- ===== src/Mount/Spliced.antt =====
-- crates/common/src/mount/mount_inner.rs, `_set_node_link_at_path`, against a description of the
-- tree by its paths alone.
use jax_fs.Prelude.{
  ◌≡◌, ◌∙◌, subst, refl, true, Option, none, some, List, [], ◌∷◌, ◌++◌, ◌⊎◌, inl, inr,
}
use jax_fs.Prelude.Results
use jax_fs.Prelude.Results.{Result, ok, err, Result-cases}
use jax_fs.FilePath.{Name, FilePath}
use jax_fs.Manifest.Platform.{Platform}
use jax_fs.Mount.Node.{
  IsValid, Node, NodeLink, data_link, dir_link, new_node, get_link, is_dir_link,
}
use jax_fs.Mount.Vault.{Vault, StoreLaws, CodecLaws}
use jax_fs.Mount.Blobs.{MountError, World, get_node_from_blobs}
use jax_fs.Mount.Walk.{enter, descend, set_node_link_at_path}
use jax_fs.Mount.Tree.{parent-snoc, file_name-snoc_name, set_node_link_at_path-eq-set_at}
use jax_fs.Mount.Grows.{Extends, Grows-eq, set_at-Grows}
use jax_fs.Mount.Seek.{apart, seek}
use jax_fs.Mount.Placed.{set_at-Placed}
use jax_fs.Mount.Succeeds.{WriteLaws, set_at-ok}

module _ (p : Platform) (v : Vault p) where
  -- What is under a name on the way: nothing, or a directory that can be read and from which the
  -- way goes on.
  abbrev Passes : Option (NodeLink p) → v.Store → (Node p → Type 0) → Type 0
  Passes none s next = Unit
  Passes (some (data_link l k d)) s next = ⊥
  Passes (some (dir_link l k)) s next =
      (child : Node p) × (get_node_from_blobs p v (dir_link l k) s ≡ ok child) × next child

  -- No component of the path is a file, and every directory of it that is there can be read.
  unfoldable pub IsOpen : FilePath → Node p → v.Store → Type 0
  IsOpen [] node s = Unit
  IsOpen (n ∷ rest) node s = Passes (get_link p n node) s (λ child. IsOpen rest child s)

  IsOpen-new_node : (path : FilePath) (s : v.Store) → IsOpen path (new_node p) s
  unfolding IsOpen get_link
  IsOpen-new_node [] s = tt
  IsOpen-new_node (n ∷ rest) s = tt

  -- A result that is a success just where the condition holds.
  abbrev OkJustIf : {A : Type 0} → Type 0 → Result (MountError p) A → Type 0
  OkJustIf {A} condition r =
      (condition × (a : A) × (r ≡ ok a)) ⊎ ((¬ condition) × (e : MountError p) × (r ≡ err e))

  enter-Passes :
      {A : Type 0} (consumed : FilePath) (o : Option (NodeLink p)) (s : v.Store)
      (Q : Node p → Type 0) (next : Node p → Result (MountError p) A)
      → Q (new_node p)
      → ((child : Node p) → OkJustIf (Q child) (next child))
      → OkJustIf (Passes o s Q) (Results.◌>>=◌ (enter p v consumed o s) next)
  unfolding enter
  enter-Passes consumed none s Q next new h = elim (h (new_node p)) [
    | inl (q, a, g) ↦ inl (tt, a, g)
    | inr (shut, e, g) ↦ absurd (shut new)
  ]
  enter-Passes consumed (some (data_link l k d)) s Q next new h = inr (λ b. b, _, refl)
  enter-Passes consumed (some (dir_link l k)) s Q next new h =
      elim (Result-cases (get_node_from_blobs p v (dir_link l k) s)) [
        | inr (x, f) ↦ inr (λ r. cc (f, r.1), x, rw f refl)
        | inl (child, f) ↦ elim (h child) [
          | inl (q, a, g) ↦ inl ((child, f, q), a, rw f g)
          | inr (shut, e, g) ↦
              inr (λ r. let same : r.0 ≡ child = cc (f, r.1) in shut (subst Q same r.2), e, rw f g)
        ]
      ]

  -- The first loop comes to its end just where the way is open.
  descend-IsOpen :
      (consumed : FilePath) (node : Node p) (visited : List (FilePath × Node p)) (path : FilePath)
      (s : v.Store)
      → OkJustIf (IsOpen path node s) (descend p v consumed node visited path s)
  unfolding IsOpen descend
  descend-IsOpen consumed node visited [] s = inl (tt, (consumed, node) ∷ visited, refl)
  descend-IsOpen consumed node visited (n ∷ rest) s =
      enter-Passes (consumed ++ n ∷ []) (get_link p n node) s (λ child. IsOpen rest child s) _
        (IsOpen-new_node rest s)
        (λ child. descend-IsOpen (consumed ++ n ∷ []) child ((consumed, node) ∷ visited) rest s)

module _ (p : Platform) (v : Vault p) (sl : StoreLaws p v) (cl : CodecLaws p v)
    (wl : WriteLaws p v) where
  -- Where blobs, encryption and codecs keep their laws and refuse no write (of nodes, none whose
  -- names are sorted), and the names of the root are sorted: either no component of the way to the
  -- parent is a file and every directory of it that is there can be read, and then the replacement
  -- of the link at the path succeeds; or this is not so, and then it fails and leaves the blobs
  -- alone. Where it succeeds, it gives a link to a directory whose node can be read; from that
  -- node the new link stands at the path, so that directories that were missing are there, every
  -- path apart from it stands for what it stood for, seen over the new blobs, and no blob is lost.
  pub set_node_link_at_path_lem :
      (node : Node p) (link : NodeLink p) (parent_path : FilePath) (name : Name) (w : World p v)
      → IsValid p node
      → (IsOpen p v parent_path node w.store
          × (w' : World p v) × (l : NodeLink p) × (created : List v.Hash) × (root : Node p)
          × (set_node_link_at_path p v node link (parent_path ++ name ∷ []) w
              ≡ (w', ok (l, created)))
          × (is_dir_link p l ≡ true)
          × (get_node_from_blobs p v l w'.store ≡ ok root)
          × (seek p v (parent_path ++ name ∷ []) root w'.store ≡ some link)
          × ((q : FilePath)
              → apart (parent_path ++ name ∷ []) q ≡ true
              → seek p v q root w'.store ≡ seek p v q node w'.store)
          × Extends p v w.store w'.store)
        ⊎ ((¬ IsOpen p v parent_path node w.store)
            × (e : MountError p) × (set_node_link_at_path p v node link (parent_path ++ name ∷ []) w
                ≡ (w, err e)))
  set_node_link_at_path_lem node link ps name w i =
      elim (descend-IsOpen p v [] node [] ps w.store) [
        | inl (o, visited, walked) ↦
            let (w', (l, created), e) =
              set_at-ok p v sl cl wl [] node [] visited ps name link w.store w i (λ h b f. f)
                walked in
            let c = set_at-Placed p v sl cl [] node ps name link l created w w' e in
            inl (
              o,
              w',
              l,
              created,
              c.root,
              set_node_link_at_path-eq-set_at p v node link ps name w ∙ e,
              c.is_dir,
              c.read,
              c.here,
              λ q a. c.kept q w'.store (λ h b f. f) a,
              Grows-eq p v sl w (set_at-Grows p v sl [] node ps name link) e,
            )
        | inr (shut, e, failed) ↦ inr (
          shut,
          e,
          unfold set_node_link_at_path in
              rw (file_name-snoc_name ps name, parent-snoc ps name, failed) refl,
        )
      ]
