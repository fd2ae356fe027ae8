-- ===== src/Mount/Tree.antt =====
-- The tree as its paths: which link stands at a path, seen from a node; and how replacing a link
-- changes it. The recursion `set_at` is the reference for the loops of the code.
use jax_fs.Prelude.{◌≡◌, refl, sym, ◌∙◌, some, List, [], ◌∷◌, ◌++◌, unwrap_or}
use jax_fs.Prelude.Results
use jax_fs.Prelude.Results.{Result, ok, err, ok_or}
use jax_fs.Ord.{u64_ord}
use jax_fs.Ord.Lex.{lex_ord}
use jax_fs.FilePath.{Name, FilePath, parent, file_name}
use jax_fs.Manifest.Platform.{Platform}
use jax_fs.Mount.Node.{Node, NodeLink, get_link}
use jax_fs.Mount.Vault.{Vault}
use jax_fs.Mount.Act.{reads, ◌>>=◌, after, after-after}
use jax_fs.Mount.Blobs.{MountError, World, Effect}
use jax_fs.Mount.Walk.{enter, descend, store_dir, ascend, set_node_link_at_path}

-- A path by its parent and its last component.
pub parent-snoc : (ps : FilePath) (n : Name) → parent (ps ++ n ∷ []) ≡ some ps
unfolding parent
parent-snoc [] n = refl
parent-snoc (m ∷ []) n = refl
parent-snoc (m ∷ k ∷ ps) n = rw (parent-snoc (k ∷ ps) n) refl

pub file_name-snoc_name : (ps : FilePath) (n : Name) → file_name (ps ++ n ∷ []) ≡ some n
unfolding file_name
file_name-snoc_name [] n = refl
file_name-snoc_name (m ∷ []) n = refl
file_name-snoc_name (m ∷ k ∷ ps) n = file_name-snoc_name (k ∷ ps) n

module _ (p : Platform) (v : Vault p) where
  -- The replacement by recursion: the child first, then a new node with the link to it.
  unfoldable pub set_at :
      FilePath → Node p → FilePath → Name → NodeLink p → Effect p v (NodeLink p × List v.Hash)
  unfolding store_dir enter get_link
  set_at consumed node [] name link = store_dir p v node name link []
  set_at consumed node (part ∷ rest) name link = do
    child ← reads (λ w. enter p v (consumed ++ part ∷ []) (get_link p part node) w.store)
    r ← set_at (consumed ++ part ∷ []) child rest name link
    store_dir p v node part r.0 r.1

  loops-set_at :
      (consumed : FilePath) (node : Node p) (visited : List (FilePath × Node p)) (rest : FilePath)
      (name : Name) (link : NodeLink p) (w : World p v)
      → after (w, descend p v consumed node visited rest w.store) (λ st. ascend p v st name link [])
        ≡ after
            (set_at consumed node rest name link w)
            (λ r. ascend p v visited (unwrap_or (file_name consumed) []) r.0 r.1)
  unfolding descend ascend set_at
  loops-set_at consumed node visited [] name link w = refl
  loops-set_at consumed node visited (part ∷ rest) name link w =
      step (enter p v (consumed ++ part ∷ []) (get_link p part node) w.store) (λ child.
        loops-set_at (consumed ++ part ∷ []) child ((consumed, node) ∷ visited) rest name link w)
    where
      step :
          (r : Result (MountError p) (Node p))
          → ((child : Node p)
              → after
                  (
                    w,
                    descend p v
                        (consumed ++ part ∷ [])
                        child
                        ((consumed, node) ∷ visited)
                        rest
                        w.store,
                  )
                  (λ st. ascend p v st name link [])
                ≡ after (set_at (consumed ++ part ∷ []) child rest name link w) (λ q.
                  ascend p v
                    ((consumed, node) ∷ visited)
                    (unwrap_or (file_name (consumed ++ part ∷ [])) [])
                    q.0
                    q.1))
          → after
              (
                w,
                Results.◌>>=◌ r (λ next.
                    descend p v
                      (consumed ++ part ∷ [])
                      next
                      ((consumed, node) ∷ visited)
                      rest
                      w.store),
              )
              (λ st. ascend p v st name link [])
            ≡ after
                (after
                  (w, r)
                  (λ child.
                    (set_at (consumed ++ part ∷ []) child rest name link >>= λ q.
                    store_dir p v node part q.0 q.1)))
                (λ q. ascend p v visited (unwrap_or (file_name consumed) []) q.0 q.1)
      step (err e) next = refl
      step (ok child) next =
          next child
          ∙ rw (file_name-snoc_name consumed part) (
              sym (
                after-after (set_at (consumed ++ part ∷ []) child rest name link w)
                  (λ q. store_dir p v node part q.0 q.1)
                  (λ q. ascend p v visited (unwrap_or (file_name consumed) []) q.0 q.1)))

  -- The loops of the code give what the recursion gives, on the blobs too, whether they succeed or
  -- not.
  pub set_node_link_at_path-eq-set_at :
      (node : Node p) (link : NodeLink p) (parent_path : FilePath) (name : Name) (w : World p v)
      → set_node_link_at_path p v node link (parent_path ++ name ∷ []) w
        ≡ set_at [] node parent_path name link w
  unfolding set_node_link_at_path
  set_node_link_at_path-eq-set_at node link parent_path name w =
      rw (file_name-snoc_name parent_path name, parent-snoc parent_path name)
        (loops-set_at [] node [] parent_path name link w
          ∙ unit (set_at [] node parent_path name link w))
    where
      unit :
          (x : World p v × Result (MountError p) (NodeLink p × List v.Hash))
          → after x (λ r. ascend p v [] (unwrap_or (file_name []) []) r.0 r.1) ≡ x
      unit (w', ok r) = refl
      unit (w', err e) = refl
