-- ===== src/PathOps/MergeResolver.antt =====
-- crates/common/src/mount/path_ops.rs: `merge_with_resolver` and `merge_logs`. The table
-- `conflicts_by_path` that the code fills first is never read, and left out.
use jax_fs.Prelude.{◌+◌, Option, none, some, List, [], ◌∷◌, ◌++◌, find, if◌then◌else◌}
use jax_fs.Ord.{Ord}
use jax_fs.BTreeMap.{contains_key, values}
use jax_fs.PathOps.Op.{OpId, PathOperation, op_id_ord}
use jax_fs.PathOps.Log.{PathOpLog, new, put, advance_clock}
use jax_fs.Conflict.Types.{Conflict, Resolution, MergeResult, ConflictResolver, no_changes}
use jax_fs.Conflict.Detect.{operations_conflict}

module _ {Key Link : Type 0} where
  unfoldable pub count_added : MergeResult Key Link → MergeResult Key Link
  count_added r = record r { operations_added = r.operations_added + 1 }

  unfoldable pub note_resolved :
      Conflict Key Link → Resolution → MergeResult Key Link → MergeResult Key Link
  note_resolved conflict resolution r = record r {
    conflicts_resolved =
        r.conflicts_resolved ++ record { conflict = conflict; resolution = resolution } ∷ [];
  }

  unfoldable pub note_unresolved : Conflict Key Link → MergeResult Key Link → MergeResult Key Link
  note_unresolved conflict r = record r {
    unresolved_conflicts = r.unresolved_conflicts ++ conflict ∷ [];
  }

module _ {Key Link : Type 0} ⦃o : Ord Key⦄ where
  -- The inner `match resolution` of `merge_with_resolver`.
  unfoldable pub apply_resolution :
      Resolution
      → Conflict Key Link
      → OpId Key
      → PathOperation Key Link
      → PathOpLog Key Link × MergeResult Key Link
      → PathOpLog Key Link × MergeResult Key Link
  unfolding put count_added note_resolved note_unresolved
  apply_resolution Resolution.use_base c id op (log, r) =
      (log, note_resolved c Resolution.use_base r)
  apply_resolution Resolution.use_incoming c id op (log, r) =
      (put id op log, note_resolved c Resolution.use_incoming (count_added r))
  apply_resolution Resolution.keep_both c id op (log, r) =
      (put id op log, note_unresolved c (count_added r))
  apply_resolution Resolution.skip_both c id op (log, r) =
      (log, note_resolved c Resolution.skip_both r)
  apply_resolution (Resolution.rename_incoming new_path) c id op (log, r) = (
    put id (record op { path = new_path }) log,
    note_resolved c (Resolution.rename_incoming new_path) (count_added r),
  )

  -- The outer `match conflicting_base`.
  unfoldable pub settle :
      ConflictResolver Key Link
      → Key
      → Option (PathOperation Key Link)
      → OpId Key
      → PathOperation Key Link
      → PathOpLog Key Link × MergeResult Key Link
      → PathOpLog Key Link × MergeResult Key Link
  unfolding apply_resolution put count_added
  settle resolver peer none id op (log, r) = (put id op log, count_added r)
  settle resolver peer (some base) id op s =
      let conflict : Conflict Key Link = record { path = op.path; base = base; incoming = op } in
      apply_resolution (resolver conflict peer) conflict id op s

  -- One round of the second loop.
  unfoldable pub resolve_entry :
      ConflictResolver Key Link
      → Key
      → OpId Key × PathOperation Key Link
      → PathOpLog Key Link × MergeResult Key Link
      → PathOpLog Key Link × MergeResult Key Link
  unfolding settle contains_key advance_clock find values operations_conflict
  resolve_entry resolver peer (id, op) (log, r) =
      if contains_key id log.operations
      then (log, r)
      else settle resolver peer
          (find (λ existing. operations_conflict existing op) (values log.operations)) id op
          (advance_clock id log, r)

  unfoldable pub resolve_entries :
      ConflictResolver Key Link
      → Key
      → List (OpId Key × PathOperation Key Link)
      → PathOpLog Key Link × MergeResult Key Link
      → PathOpLog Key Link × MergeResult Key Link
  resolve_entries resolver peer [] s = s
  resolve_entries resolver peer (e ∷ rest) s =
      resolve_entries resolver peer rest (resolve_entry resolver peer e s)

  unfoldable pub merge_with_resolver :
      PathOpLog Key Link
      → PathOpLog Key Link
      → ConflictResolver Key Link
      → Key
      → PathOpLog Key Link × MergeResult Key Link
  unfolding resolve_entry resolve_entries
  merge_with_resolver log other resolver local_peer =
      resolve_entries resolver local_peer other.operations (log, no_changes)

  unfoldable pub merge_rest :
      List (PathOpLog Key Link)
      → ConflictResolver Key Link
      → Key
      → PathOpLog Key Link × List (MergeResult Key Link)
      → PathOpLog Key Link × List (MergeResult Key Link)
  unfolding merge_with_resolver
  merge_rest [] resolver peer s = s
  merge_rest (log ∷ logs) resolver peer (merged, results) =
      let (merged', result) = merge_with_resolver merged log resolver peer in
      merge_rest logs resolver peer (merged', results ++ result ∷ [])

  unfoldable pub merge_logs :
      List (PathOpLog Key Link)
      → ConflictResolver Key Link
      → Key
      → PathOpLog Key Link × List (MergeResult Key Link)
  unfolding merge_rest
  merge_logs [] resolver peer = (new, [])
  merge_logs (first ∷ logs) resolver peer = merge_rest logs resolver peer (first, [])
