-- ===== src/PathOps/Converge.antt =====
-- Two peers that merge each other's logs by `LastWriteWins` see one file tree.
use jax_fs.Prelude.{◌≡◌, sym, ◌∙◌}
use jax_fs.Ord.{Ord}
use jax_fs.FilePath.{FilePath}
use jax_fs.PathOps.Log.{PathOpLog, merge}
use jax_fs.PathOps.Resolve.{resolve_path, ops_for_path}
use jax_fs.PathOps.Valid.{IsValid}
use jax_fs.PathOps.Semilattice.{Agree, merge_comm}
use jax_fs.PathOps.LastWrite.{last_write_wins-resolve_path}
use jax_fs.Conflict.Resolvers.{last_write_wins}
use jax_fs.PathOps.MergeResolver.{merge_with_resolver}

module _ {Key Link : Type 0} ⦃o : Ord Key⦄ where
  resolve_path_ext :
      (path : FilePath) (a b : PathOpLog Key Link)
      → a.operations ≡ b.operations
      → resolve_path path a ≡ resolve_path path b
  unfolding resolve_path ops_for_path
  resolve_path_ext path a b e = rw e

  -- For two valid logs that agree on the identifiers they share, the merge of the second into the
  -- first at one peer and of the first into the second at the other resolve every path alike.
  pub last_write_wins_converges :
      (a b : PathOpLog Key Link) (p q : Key) (path : FilePath)
      → IsValid a
      → IsValid b
      → Agree a b
      → resolve_path path (merge_with_resolver a b last_write_wins p).0
        ≡ resolve_path path (merge_with_resolver b a last_write_wins q).0
  last_write_wins_converges a b p q path v w agree =
      last_write_wins-resolve_path a b p path v w
      ∙ resolve_path_ext path (merge a b).0 (merge b a).0 (merge_comm a b v.sorted w.sorted agree)
      ∙ sym (last_write_wins-resolve_path b a q path w v)
