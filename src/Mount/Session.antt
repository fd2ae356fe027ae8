-- ===== src/Mount/Session.antt =====
-- crates/common/src/mount/mount_inner.rs: `MountInner`, with the blobs it stands on, and what reads
-- it. The lock around it is never contended.
use jax_fs.Prelude.{ℕ, Bool, Option, List, [], ◌∷◌, ◌++◌, unwrap_or}
use jax_fs.Prelude.Results
use jax_fs.Prelude.Results.{Result, ok, err, ok_or}
use jax_fs.Ord.{Ord, u64_ord}
use jax_fs.Ord.Lex.{lex, lex_ord}
use jax_fs.BTreeMap.{BTreeMap, insert}
use jax_fs.FilePath.{Name, FilePath, parent, file_name}
use jax_fs.PathOps.Op.{OpType, op_id_ord}
use jax_fs.PathOps.Log.{PathOpLog, record_op}
use jax_fs.Manifest.Platform.{Platform}
use jax_fs.Manifest.Types.{Manifest}
use jax_fs.Mount.Node.{Node, NodeLink, data_link, dir_link, get_link}
use jax_fs.Mount.Pins.{Pins, extend}
use jax_fs.Mount.Vault.{Vault}
use jax_fs.Mount.Act.{Act}
use jax_fs.Mount.Blobs.{MountError, World, Effect, read_secret}
use jax_fs.Mount.Walk.{get_node_at_path}

pub record MountInner (p : Platform) (v : Vault p) : Type 0 where
  pub link : p.Link
  pub manifest : Manifest p
  pub entry : Node p
  pub pins : Pins v.Hash
  pub height : ℕ
  pub ops_log : PathOpLog p.Key p.Link
  pub peer_id : p.Key
  pub secret_key : p.SecretKey

-- `Mount`: the state of the mount, and its blobs.
pub record Session (p : Platform) (v : Vault p) : Type 0 where
  pub inner : MountInner p v
  pub world : World p v

module _ (p : Platform) (v : Vault p) where
  abbrev pub Method : Type 0 → Type 0
  Method A = Act (Session p v) (MountError p) A

  -- A call that changes no more than the blobs.
  abbrev pub on_blobs : {A : Type 0} → Effect p v A → Method A
  on_blobs f s = let (w, r) = f s.world in (record s { world = w }, r)

  abbrev pub update : (MountInner p v → MountInner p v) → Method (Unit {0})
  update f s = (record s { inner = f s.inner }, ok tt)

  -- The parent of a path and its last component, which the root has not.
  unfoldable pub split : FilePath → MountError p → Result (MountError p) (FilePath × Name)
  unfolding parent file_name
  split path e = Results.◌>>=◌ (ok_or (parent path) e) (λ parent_path.
      Results.◌>>=◌ (ok_or (file_name path) MountError.panicked) (λ name. ok (parent_path, name)))

  -- `MountInner::get` on a root node. The code takes the root node itself where the parent is the
  -- root, which is what the walk along no component gives.
  unfoldable pub get_at : Node p → FilePath → v.Store → Result (MountError p) (NodeLink p)
  unfolding split get_node_at_path get_link
  get_at root path s = Results.◌>>=◌ (split path (MountError.path_not_found path)) (λ r.
      Results.◌>>=◌ (get_node_at_path p v [] root r.0 s)
        (λ node. ok_or (get_link p r.1 node) (MountError.path_not_found path)))

  -- `get`
  abbrev pub get_mount_link : FilePath → Session p v → Result (MountError p) (NodeLink p)
  get_mount_link path s = get_at s.inner.entry path s.world.store

  unfoldable pub read_data : FilePath → NodeLink p → v.Store → Result (MountError p) p.Bytes
  unfolding read_secret
  read_data path (data_link link secret d) s = read_secret p v link secret s
  read_data path (dir_link link secret) s = err (MountError.path_not_node path)

  -- `cat`; a blob that is not there is an error of the store in the code.
  unfoldable pub cat : FilePath → Session p v → Result (MountError p) p.Bytes
  unfolding get_at read_data
  cat path s = Results.◌>>=◌ (get_mount_link path s) (λ link. read_data path link s.world.store)

  -- The items of a directory under their full paths.
  unfoldable pub list_links :
      FilePath
      → BTreeMap Name (NodeLink p)
      → BTreeMap FilePath (NodeLink p)
      → BTreeMap FilePath (NodeLink p)
  unfolding insert lex
  list_links path [] items = items
  list_links path ((name, link) ∷ links) items =
      list_links path links (insert (path ++ name ∷ []) link items)

  -- The `match` on the error of the walk.
  unfoldable pub blame_path :
      FilePath → Result (MountError p) (Node p) → Result (MountError p) (Node p)
  blame_path path (err (MountError.link_not_found link)) = err (MountError.path_not_node path)
  blame_path path r = r

  unfoldable pub ls :
      FilePath → Session p v → Result (MountError p) (BTreeMap FilePath (NodeLink p))
  unfolding get_node_at_path list_links blame_path
  ls path s =
      Results.◌>>=◌ (blame_path path (get_node_at_path p v [] s.inner.entry path s.world.store))
        (λ node. ok (list_links path node.links []))

module _ (p : Platform) (v : Vault p) ⦃ko : Ord p.Key⦄ ⦃ho : Ord v.Hash⦄ where
  -- What an operation leaves in the mount: new pins, a new root, and its record.
  unfoldable pub commit : List v.Hash → Option (Node p) → MountInner p v → MountInner p v
  unfolding extend
  commit hashes new_entry inner = record inner {
    pins = extend hashes inner.pins;
    entry = unwrap_or new_entry inner.entry;
  }

  unfoldable pub log_op : OpType → FilePath → Option p.Link → Bool → MountInner p v → MountInner p v
  unfolding record_op
  log_op op_type path link is_dir inner = record inner {
    ops_log = (record_op inner.peer_id op_type path link is_dir inner.ops_log).0;
  }
