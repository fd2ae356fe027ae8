-- ===== src/Mount/Merge.antt =====
-- crates/common/src/mount/mount_inner.rs: the merge of another mount of the bucket. Both mounts stand
-- on the blobs that the code is given.
use jax_fs.Prelude.{ℕ, Bool, true, false, ◌&&◌, [], ◌∷◌, is_some, if◌then◌else◌}
use jax_fs.Prelude.Results.{Result, ok, err}
use jax_fs.Ord.{Ord, u64_ord}
use jax_fs.Ord.Lex.{lex_ord}
use jax_fs.BTreeMap.{BTreeMap}
use jax_fs.FilePath.{FilePath}
use jax_fs.PathOps.Op.{OpType, PathOperation, op_id_ord}
use jax_fs.PathOps.Log.{merge, from_operation}
use jax_fs.PathOps.Resolve.{resolve_all}
use jax_fs.PathOps.MergeResolver.{merge_with_resolver}
use jax_fs.Conflict.Types.{ConflictResolver, MergeResult}
use jax_fs.Manifest.Platform.{Platform}
use jax_fs.Mount.Node.{NodeLink}
use jax_fs.Mount.Vault.{Vault}
use jax_fs.Mount.Act.{pure, give, reads, gets, ◌>>=◌, ◌>>◌}
use jax_fs.Mount.Blobs.{MountError}
use jax_fs.Mount.Session.{MountInner, Session, Method, update, get_at, get_mount_link}
use jax_fs.Mount.Files.{mkdir}
use jax_fs.Mount.Save.{save}
use jax_fs.Mount.Chain.{Log, collect_ops_since, find_mount_ancestor}

-- `matches!(op.op_type, OpType::Mkdir)`
abbrev pub is_mkdir : OpType → Bool
is_mkdir OpType.mkdir = true
is_mkdir _ = false

module _ (p : Platform) (v : Vault p) ⦃ko : Ord p.Key⦄ ⦃ho : Ord v.Hash⦄ where
  abbrev pub Op : Type 0
  Op = PathOperation p.Key p.Link

  unfoldable pub merge_ops : Log p v → MountInner p v → MountInner p v
  unfolding merge
  merge_ops log inner = record inner { ops_log = (merge inner.ops_log log).0 }

  -- The `match` on the file of an operation: one that is missing is only logged.
  unfoldable pub note_missing : Op → Result (MountError p) (NodeLink p) → Method p v (Unit {0})
  unfolding merge_ops from_operation
  note_missing op (ok link) = pure tt
  note_missing op (err (MountError.path_not_found _)) = update p v (merge_ops (from_operation op))
  note_missing op (err e) = give (err e)

  -- The `match` on a `mkdir`: what is there already is no error.
  unfoldable pub or_existing : Method p v (Unit {0}) → Method p v (Unit {0})
  or_existing f s = again (f s)
    where
      again :
          Session p v × Result (MountError p) (Unit {0})
          → Session p v × Result (MountError p) (Unit {0})
      again (s', err (MountError.path_already_exists _)) = (s', ok tt)
      again (s', r) = (s', r)

  unfoldable pub apply_op : FilePath → Op → Method p v (Unit {0})
  unfolding get_at note_missing or_existing mkdir
  apply_op path op s =
      let found = note_missing op (get_mount_link p v path s) s in
      let made = or_existing (mkdir p v path) s in
      if is_some op.content_link
      then found
      else if op.is_dir && is_mkdir op.op_type
      then made
      else (s, ok tt)

  unfoldable pub apply_ops : BTreeMap FilePath Op → Method p v (Unit {0})
  unfolding apply_op
  apply_ops [] = pure tt
  apply_ops ((path, op) ∷ ops) = apply_op path op >> apply_ops ops

  unfoldable pub apply_resolved_state : Log p v → Method p v (Unit {0})
  unfolding apply_ops resolve_all
  apply_resolved_state merged_ops = apply_ops (resolve_all merged_ops)

module _ (p : Platform) (v : Vault p) ⦃ko : Ord p.Key⦄ ⦃lo : Ord p.Link⦄ ⦃ho : Ord v.Hash⦄ where
  -- With fuel for the walks.
  unfoldable pub merge_from :
      ℕ
      → MountInner p v
      → ConflictResolver p.Key p.Link
      → Method p v (MergeResult p.Key p.Link × p.Link)
  unfolding find_mount_ancestor collect_ops_since merge_with_resolver apply_resolved_state merge_ops
      save
  merge_from fuel incoming resolver = do
    ancestor ← reads (λ s. find_mount_ancestor p v fuel s.inner incoming s.world.store)
    local_ops ← reads (λ s. collect_ops_since p v fuel ancestor s.inner s.world.store)
    incoming_ops ← reads (λ s. collect_ops_since p v fuel ancestor incoming s.world.store)
    peer_id ← gets (λ s. s.inner.peer_id)
    let r = merge_with_resolver local_ops incoming_ops resolver peer_id
    apply_resolved_state p v r.0
    update p v (merge_ops p v r.0)
    saved ← save p v false
    pure (r.1, saved.0)
