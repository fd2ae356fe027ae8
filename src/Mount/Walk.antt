-- ===== src/Mount/Walk.antt =====
-- crates/common/src/mount/mount_inner.rs: the walks from a node down a path, and the replacement of
-- a link, which writes a new node for every directory on the path. An absolute path is the list of
-- its components after the root, each a plain name; so `clean_path` changes nothing.
use jax_fs.Prelude.{Option, none, some, List, [], ◌∷◌, ◌++◌, unwrap_or}
use jax_fs.Prelude.Results
use jax_fs.Prelude.Results.{Result, ok, err, ok_or}
use jax_fs.FilePath.{Name, FilePath, parent, file_name}
use jax_fs.Manifest.Platform.{Platform}
use jax_fs.Mount.Node.{Node, NodeLink, data_link, dir_link, new_node, get_link, insert_link}
use jax_fs.Mount.Vault.{Vault}
use jax_fs.Mount.Act.{pure, give, reads, ◌>>=◌}
use jax_fs.Mount.Blobs.{MountError, Effect, get_node_from_blobs, generate_secret, put_node_in_blobs}

module _ (p : Platform) (v : Vault p) where
  -- `_get_node_at_path`, from the consumed path on. A link to a file is read as a node too.
  unfoldable pub get_node_at_path :
      FilePath → Node p → FilePath → v.Store → Result (MountError p) (Node p)
  unfolding get_node_from_blobs get_link
  get_node_at_path consumed node [] s = ok node
  get_node_at_path consumed node (part ∷ rest) s =
      Results.◌>>=◌
        (ok_or (get_link p part node) (MountError.path_not_found (consumed ++ part ∷ [])))
        (λ next_link.
          Results.◌>>=◌ (get_node_from_blobs p v next_link s)
            (λ next. get_node_at_path (consumed ++ part ∷ []) next rest s))

  -- The directory under a name; an empty one where there is none.
  unfoldable pub enter : FilePath → Option (NodeLink p) → v.Store → Result (MountError p) (Node p)
  unfolding get_node_from_blobs
  enter consumed none s = ok (new_node p)
  enter consumed (some (dir_link link secret)) s = get_node_from_blobs p v (dir_link link secret) s
  enter consumed (some (data_link link secret d)) s = err (MountError.path_not_node consumed)

  -- The first loop of `_set_node_link_at_path`: the visited nodes with their paths, the last first.
  unfoldable pub descend :
      FilePath
      → Node p
      → List (FilePath × Node p)
      → FilePath
      → v.Store
      → Result (MountError p) (List (FilePath × Node p))
  unfolding enter get_link
  descend consumed node visited [] s = ok ((consumed, node) ∷ visited)
  descend consumed node visited (part ∷ rest) s =
      Results.◌>>=◌ (enter (consumed ++ part ∷ []) (get_link p part node) s)
        (λ next. descend (consumed ++ part ∷ []) next ((consumed, node) ∷ visited) rest s)

  -- A new node with the link, and a link to it.
  unfoldable pub store_dir :
      Node p → Name → NodeLink p → List v.Hash → Effect p v (NodeLink p × List v.Hash)
  unfolding generate_secret put_node_in_blobs insert_link
  store_dir node name link created = do
    secret ← generate_secret p v
    l ← put_node_in_blobs p v (insert_link p name link node) secret
    pure (dir_link l secret, created ++ v.hash l ∷ [])

  -- The second loop.
  unfoldable pub ascend :
      List (FilePath × Node p)
      → Name
      → NodeLink p
      → List v.Hash
      → Effect p v (NodeLink p × List v.Hash)
  unfolding store_dir file_name
  ascend [] name link created = pure (link, created)
  ascend ((path, node) ∷ rest) name link created = do
    r ← store_dir node name link created
    ascend rest (unwrap_or (file_name path) []) r.0 r.1

  unfoldable pub set_node_link_at_path :
      Node p → NodeLink p → FilePath → Effect p v (NodeLink p × List v.Hash)
  unfolding descend ascend parent file_name
  set_node_link_at_path node link path = do
    name ← give (ok_or (file_name path) MountError.panicked)
    visited ← reads (λ w. descend [] node [] (unwrap_or (parent path) []) w.store)
    ascend visited name link []
