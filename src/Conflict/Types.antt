-- ===== src/Conflict/Types.antt =====
-- crates/common/src/mount/conflict/types.rs: conflicts, resolutions and the result of a merge.
use jax_fs.Prelude.{ℕ, ◌+◌, Bool, not, List, [], length, is_empty, if◌then◌else◌}
use jax_fs.Ord.{Ord, u64_ord, ◌==◌, gtb}
use jax_fs.FilePath.{FilePath}
use jax_fs.PathOps.Op.{PathOperation, op_id_ord}

pub record Conflict (Key Link : Type 0) : Type 0 where
  pub path : FilePath
  pub base : PathOperation Key Link
  pub incoming : PathOperation Key Link

pub data Resolution : Type 0 where
  use_base use_incoming keep_both skip_both : Resolution
  rename_incoming : FilePath → Resolution

pub record ResolvedConflict (Key Link : Type 0) : Type 0 where
  pub conflict : Conflict Key Link
  pub resolution : Resolution

pub record MergeResult (Key Link : Type 0) : Type 0 where
  pub operations_added : ℕ
  pub conflicts_resolved : List (ResolvedConflict Key Link)
  pub unresolved_conflicts : List (Conflict Key Link)

module _ {Key Link : Type 0} where
  -- `MergeResult::new`
  abbrev pub no_changes : MergeResult Key Link
  no_changes = record { operations_added = 0; conflicts_resolved = []; unresolved_conflicts = [] }

  unfoldable pub has_unresolved : MergeResult Key Link → Bool
  has_unresolved r = not (is_empty r.unresolved_conflicts)

  unfoldable pub total_conflicts : MergeResult Key Link → ℕ
  total_conflicts r = length r.conflicts_resolved + length r.unresolved_conflicts

  unfoldable pub is_concurrent : Conflict Key Link → Bool
  is_concurrent c = c.base.id.timestamp == c.incoming.id.timestamp

module _ {Key Link : Type 0} ⦃o : Ord Key⦄ where
  unfoldable pub crdt_winner : Conflict Key Link → PathOperation Key Link
  crdt_winner c = if gtb c.incoming.id c.base.id then c.incoming else c.base

-- `trait ConflictResolver`: a strategy sees the conflict and the local peer.
abbrev pub ConflictResolver : Type 0 → Type 0 → Type 0
ConflictResolver Key Link = Conflict Key Link → Key → Resolution
