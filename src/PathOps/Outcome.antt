-- ===== src/PathOps/Outcome.antt =====
-- What one round of `merge_with_resolver` can do to the log, whatever the strategy.
use jax_fs.Prelude.{
  ℕ, ◌+◌, ◌≡◌, refl, true, false, Option, none, some, ◌⊎◌, inl, inr, Bool-cases, find,
}
use jax_fs.Ord.{Ord}
use jax_fs.BTreeMap.{contains_key, values}
use jax_fs.PathOps.Op.{OpId, PathOperation, op_id_ord}
use jax_fs.PathOps.Log.{PathOpLog, put, advance_clock}
use jax_fs.Conflict.Types.{Conflict, Resolution, MergeResult, ConflictResolver}
use jax_fs.Conflict.Detect.{operations_conflict}
use jax_fs.PathOps.MergeResolver.{apply_resolution, settle, resolve_entry}

module _ {Key Link : Type 0} ⦃o : Ord Key⦄ where
  -- Either nothing is added, or one operation is added under the incoming identifier and counted.
  abbrev pub Outcome :
      OpId Key
      → PathOperation Key Link
      → PathOpLog Key Link × MergeResult Key Link
      → PathOpLog Key Link × MergeResult Key Link
      → Type 0
  Outcome id op s s' =
      ((s'.0 ≡ s.0) × (s'.1.operations_added ≡ s.1.operations_added))
      ⊎ ((op' : PathOperation Key Link) × (op'.id ≡ op.id)
          × (s'.0 ≡ put id op' s.0)
          × (s'.1.operations_added ≡ s.1.operations_added + 1))

  apply_resolution-Outcome :
      (x : Resolution) (c : Conflict Key Link) (id : OpId Key) (op : PathOperation Key Link)
      (log : PathOpLog Key Link) (r : MergeResult Key Link)
      → Outcome id op (log, r) (apply_resolution x c id op (log, r))
  unfolding apply_resolution
  apply_resolution-Outcome Resolution.use_base c id op log r = inl (refl, refl)
  apply_resolution-Outcome Resolution.use_incoming c id op log r = inr (op, refl, refl, refl)
  apply_resolution-Outcome Resolution.keep_both c id op log r = inr (op, refl, refl, refl)
  apply_resolution-Outcome Resolution.skip_both c id op log r = inl (refl, refl)
  apply_resolution-Outcome (Resolution.rename_incoming p) c id op log r =
      inr (record op { path = p }, refl, refl, refl)

  pub settle-Outcome :
      (resolver : ConflictResolver Key Link) (peer : Key) (base : Option (PathOperation Key Link))
      (id : OpId Key) (op : PathOperation Key Link) (log : PathOpLog Key Link)
      (r : MergeResult Key Link)
      → Outcome id op (log, r) (settle resolver peer base id op (log, r))
  unfolding settle
  settle-Outcome resolver peer none id op log r = inr (op, refl, refl, refl)
  settle-Outcome resolver peer (some base) id op log r = apply_resolution-Outcome _ _ id op log r

  -- The two branches of a round.
  pub resolve_entry_old :
      (resolver : ConflictResolver Key Link) (peer : Key) (id : OpId Key)
      (op : PathOperation Key Link) (log : PathOpLog Key Link) (r : MergeResult Key Link)
      → contains_key id log.operations ≡ true
      → resolve_entry resolver peer (id, op) (log, r) ≡ (log, r)
  unfolding resolve_entry
  resolve_entry_old resolver peer id op log r h = rw h

  pub resolve_entry_new :
      (resolver : ConflictResolver Key Link) (peer : Key) (id : OpId Key)
      (op : PathOperation Key Link) (log : PathOpLog Key Link) (r : MergeResult Key Link)
      → contains_key id log.operations ≡ false
      → resolve_entry resolver peer (id, op) (log, r)
        ≡ settle resolver peer
            (find (λ existing. operations_conflict existing op) (values log.operations))
            id
            op
            (advance_clock id log, r)
  unfolding resolve_entry
  resolve_entry_new resolver peer id op log r h = rw h

  -- A property of the log and the count that each outcome keeps is kept by a round.
  pub resolve_entry_keeps {μ} :
      (P : PathOpLog Key Link → ℕ → Type μ) (resolver : ConflictResolver Key Link) (peer : Key)
      (id : OpId Key) (op : PathOperation Key Link) (log : PathOpLog Key Link)
      (r : MergeResult Key Link)
      → P log r.operations_added
      → (contains_key id log.operations ≡ false → P (advance_clock id log) r.operations_added)
      → (contains_key id log.operations ≡ false
          → (op' : PathOperation Key Link) → op'.id ≡ op.id
          → P (put id op' (advance_clock id log)) (r.operations_added + 1))
      → P
          (resolve_entry resolver peer (id, op) (log, r)).0
          (resolve_entry resolver peer (id, op) (log, r)).1.operations_added
  resolve_entry_keeps P resolver peer id op log r old skip fresh =
      elim (Bool-cases (contains_key id log.operations)) [
        | inl t ↦ rw (resolve_entry_old resolver peer id op log r t) old
        | inr f ↦
            rw (resolve_entry_new resolver peer id op log r f)
              (elim (settle-Outcome resolver peer
                (find (λ existing. operations_conflict existing op) (values log.operations)) id op
                (advance_clock id log) r) [
                  | inl (same, count) ↦ rw (same, count) (skip f)
                  | inr (op', e, added, count) ↦ rw (added, count) (fresh f op' e)
                ])
      ]
