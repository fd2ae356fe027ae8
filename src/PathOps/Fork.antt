-- ===== src/PathOps/Fork.antt =====
-- The strategy `ForkOnConflict` adds every operation, as the plain `merge` does.
use jax_fs.Prelude.{ℕ, ◌+◌, ◌≡◌, refl, ap, Option, none, some, [], ◌∷◌, ◌∙◌, Bool-cases, inl, inr}
use jax_fs.Ord.{Ord}
use jax_fs.BTreeMap.{BTreeMap, contains_key}
use jax_fs.PathOps.Op.{OpId, PathOperation, op_id_ord}
use jax_fs.PathOps.Log.{PathOpLog, put, advance_clock, merge_entry, merge_entries, merge}
use jax_fs.PathOps.Valid.{put-advance_clock, merge_entry_old, merge_entry_new}
use jax_fs.Conflict.Types.{MergeResult, no_changes}
use jax_fs.Conflict.Resolvers.{fork_on_conflict}
use jax_fs.PathOps.MergeResolver.{settle, resolve_entry, resolve_entries, merge_with_resolver}
use jax_fs.PathOps.Outcome.{resolve_entry_old, resolve_entry_new}

module _ {Key Link : Type 0} ⦃o : Ord Key⦄ where
  -- The log and the count of a result, which the plain `merge` returns.
  abbrev plain : PathOpLog Key Link × MergeResult Key Link → PathOpLog Key Link × ℕ
  plain (log, r) = (log, r.operations_added)

  settle_fork :
      (peer : Key) (base : Option (PathOperation Key Link)) (id : OpId Key)
      (op : PathOperation Key Link) (log : PathOpLog Key Link) (r : MergeResult Key Link)
      → plain (settle fork_on_conflict peer base id op (log, r))
        ≡ (put id op log, r.operations_added + 1)
  unfolding settle fork_on_conflict
  settle_fork peer none id op log r = refl
  settle_fork peer (some base) id op log r = refl

  resolve_entry_fork :
      (peer : Key) (id : OpId Key) (op : PathOperation Key Link) (log : PathOpLog Key Link)
      (r : MergeResult Key Link)
      → plain (resolve_entry fork_on_conflict peer (id, op) (log, r))
        ≡ merge_entry (id, op) (log, r.operations_added)
  resolve_entry_fork peer id op log r = elim (Bool-cases (contains_key id log.operations)) [
    | inl t ↦ rw (
      resolve_entry_old fork_on_conflict peer id op log r t,
      merge_entry_old id op log r.operations_added t,
    )
    | inr f ↦
        rw
          (
            resolve_entry_new fork_on_conflict peer id op log r f,
            merge_entry_new id op log r.operations_added f,
          )
          (settle_fork peer _ id op (advance_clock id log) r
            ∙ ap (λ l. (l, r.operations_added + 1)) (put-advance_clock id op log))
  ]

  resolve_entries_fork :
      (peer : Key) (es : BTreeMap (OpId Key) (PathOperation Key Link)) (log : PathOpLog Key Link)
      (r : MergeResult Key Link)
      → plain (resolve_entries fork_on_conflict peer es (log, r))
        ≡ merge_entries es (log, r.operations_added)
  unfolding resolve_entries merge_entries
  resolve_entries_fork peer [] log r = refl
  resolve_entries_fork peer ((id, op) ∷ es) log r =
      let (log', r') = resolve_entry fork_on_conflict peer (id, op) (log, r) in
      resolve_entries_fork peer es log' r'
      ∙ ap (merge_entries es) (resolve_entry_fork peer id op log r)

  -- `ForkOnConflict` gives the log of the plain `merge`, its clock included, and its count.
  pub fork_on_conflict-eq-merge :
      (a b : PathOpLog Key Link) (peer : Key)
      → ((merge_with_resolver a b fork_on_conflict peer).0 ≡ (merge a b).0)
        × ((merge_with_resolver a b fork_on_conflict peer).1.operations_added ≡ (merge a b).1)
  unfolding merge_with_resolver merge
  fork_on_conflict-eq-merge a b peer =
      let e = resolve_entries_fork peer b.operations a no_changes in
      (ap (λ s. s.0) e, ap (λ s. s.1) e)
