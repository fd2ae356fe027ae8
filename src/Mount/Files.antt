-- ===== src/Mount/Files.antt =====
-- crates/common/src/mount/mount_inner.rs: the operations that change the file tree.
use jax_fs.Prelude.{Bool, true, false, ◌&&◌, Option, none, some, List, [], ◌∷◌, is_some}
use jax_fs.Prelude.Results
use jax_fs.Prelude.Results.{Result, ok, err, ok_or}
use jax_fs.Ord.{Ord, u64_ord, ◌==◌}
use jax_fs.Ord.Lex.{lex, lex_ord}
use jax_fs.FilePath.{Name, FilePath}
use jax_fs.PathOps.Op.{OpType, op_id_ord}
use jax_fs.Manifest.Platform.{Platform}
use jax_fs.Mount.Node.{
  Node, NodeLink, data_link, dir_link, new_node, data_of_mime, get_link, del_link, is_dir_link,
}
use jax_fs.Mount.Vault.{Vault}
use jax_fs.Mount.Act.{pure, give, reads, gets, fail_if, ◌>>=◌, ◌>>◌}
use jax_fs.Mount.Blobs.{
  MountError, get_node_from_blobs, generate_secret, put_secret, put_node_in_blobs,
}
use jax_fs.Mount.Walk.{get_node_at_path, set_node_link_at_path}
use jax_fs.Mount.Session.{Method, on_blobs, update, split, get_at, get_mount_link, commit, log_op}

-- `Path::starts_with`, by whole components.
unfoldable pub starts_with : FilePath → FilePath → Bool
unfolding lex
starts_with path [] = true
starts_with [] (n ∷ base) = false
starts_with (m ∷ path) (n ∷ base) = m == n && starts_with path base

module _ (p : Platform) (v : Vault p) where
  -- The new root, where the link to it is one to a directory, which it always is.
  unfoldable pub reload : NodeLink p → v.Store → Result (MountError p) (Option (Node p))
  unfolding get_node_from_blobs
  reload (data_link link secret d) s = ok none
  reload (dir_link link secret) s =
      Results.◌>>=◌ (get_node_from_blobs p v (dir_link link secret) s) (λ node. ok (some node))

  -- The parent of a new directory, which may have to be made.
  unfoldable pub or_missing : Result (MountError p) (Node p) → Result (MountError p) (Node p)
  or_missing (err (MountError.path_not_found _)) = ok (new_node p)
  or_missing r = r

  abbrev pub is_ok : {A : Type 0} → Result (MountError p) A → Bool
  is_ok (ok _) = true
  is_ok (err _) = false

module _ (p : Platform) (v : Vault p) ⦃ko : Ord p.Key⦄ ⦃ho : Ord v.Hash⦄ where
  -- The replacement of a link in the tree of the mount, with the hashes to pin besides.
  unfoldable pub replace_link : NodeLink p → FilePath → List v.Hash → Method p v (Unit {0})
  unfolding set_node_link_at_path reload commit
  replace_link node_link path hashes = do
    entry ← gets (λ s. s.inner.entry)
    r ← on_blobs p v (set_node_link_at_path p v entry node_link path)
    new_entry ← reads (λ s. reload p v r.0 s.world.store)
    update p v (λ i. commit p v r.1 new_entry (commit p v hashes none i))

  -- The bytes are encrypted, put and linked as what is encoded is; the link has the hash to pin.
  unfoldable pub add : FilePath → p.Bytes → Method p v (Unit {0})
  unfolding generate_secret put_secret replace_link log_op
  add path bytes = do
    secret ← on_blobs p v (generate_secret p v)
    link ← on_blobs p v (put_secret p v (some bytes) secret)
    replace_link (data_link link secret (data_of_mime p (v.mime_of path))) path (v.hash link ∷ [])
    update p v (log_op p v OpType.add path (some link) false)

  -- The removal of a name from a directory, up to the root; `rm` and `mv` have it each.
  unfoldable pub store_parent : Node p → FilePath → Method p v (Unit {0})
  unfolding generate_secret put_node_in_blobs replace_link commit
  store_parent parent_node [] = do
    secret ← on_blobs p v (generate_secret p v)
    link ← on_blobs p v (put_node_in_blobs p v parent_node secret)
    update p v (commit p v (v.hash link ∷ []) (some parent_node))
  store_parent parent_node (n ∷ ns) = do
    secret ← on_blobs p v (generate_secret p v)
    link ← on_blobs p v (put_node_in_blobs p v parent_node secret)
    replace_link (dir_link link secret) (n ∷ ns) (v.hash link ∷ [])

  unfoldable pub unlink : FilePath → FilePath → Name → Method p v (NodeLink p)
  unfolding get_node_at_path get_link del_link store_parent
  unlink path parent_path name = do
    parent_node ← reads (λ s. get_node_at_path p v [] s.inner.entry parent_path s.world.store)
    removed ← give (ok_or (get_link p name parent_node) (MountError.path_not_found path))
    store_parent (del_link p name parent_node) parent_path
    pure removed

  unfoldable pub remove_link : FilePath → Method p v (NodeLink p)
  unfolding split unlink
  remove_link path = do r ← give (split p v path MountError.root_given); unlink path r.0 r.1

  unfoldable pub rm : FilePath → Method p v (Unit {0})
  unfolding remove_link log_op
  rm path = do
    removed ← remove_link path
    update p v (log_op p v OpType.remove path none (is_dir_link p removed))

  unfoldable pub mkdir : FilePath → Method p v (Unit {0})
  unfolding split get_node_at_path or_missing get_link generate_secret put_node_in_blobs
      replace_link log_op
  mkdir path = do
    r ← give (split p v path MountError.root_given)
    parent_node ←
        reads (λ s. or_missing p v (get_node_at_path p v [] s.inner.entry r.0 s.world.store))
    fail_if (is_some (get_link p r.1 parent_node)) (MountError.path_already_exists path)
    secret ← on_blobs p v (generate_secret p v)
    dir ← on_blobs p v (put_node_in_blobs p v (new_node p) secret)
    replace_link (dir_link dir secret) path (v.hash dir ∷ [])
    update p v (log_op p v OpType.mkdir path none true)

  unfoldable pub mv : FilePath → FilePath → Method p v (Unit {0})
  unfolding starts_with get_at remove_link replace_link log_op
  mv from to = do
    fail_if (starts_with to from) (MountError.move_into_self from to)
    node_link ← reads (get_mount_link p v from)
    found ← gets (λ s. is_ok p v (get_mount_link p v to s))
    fail_if found (MountError.path_already_exists to)
    _ ← remove_link from
    replace_link node_link to []
    update p v (log_op p v (OpType.mv from) to none (is_dir_link p node_link))
