-- ===== src/PathOps/Retain.antt =====
-- Merging with any strategy only adds operations: what the log holds it keeps unchanged.
use jax_fs.Prelude.{◌+◌, ◌<◌, ◌≡◌, refl, false, some, [], ◌∷◌, arith, ◌∙◌, u64_mod}
use jax_fs.Ord.{Ord}
use jax_fs.BTreeMap.{BTreeMap, get, contains_key, get-insert, length-insert}
use jax_fs.PathOps.Op.{OpId, PathOperation, op_id_ord, cmp_op_id-eq}
use jax_fs.PathOps.Log.{PathOpLog, put, advance_clock, len}
use jax_fs.PathOps.Valid.{
  IsValid, Keyed, HasRoom, operations-advance_clock, put-advance_clock, advance_clock_covers,
  Clocked-mono,
}
use jax_fs.PathOps.Clock.{add_and_advance-IsValid}
use jax_fs.Conflict.Types.{MergeResult, ConflictResolver, no_changes}
use jax_fs.PathOps.MergeResolver.{resolve_entry, resolve_entries, merge_with_resolver}
use jax_fs.PathOps.Outcome.{resolve_entry_keeps}

module _ {Key Link : Type 0} ⦃o : Ord Key⦄ where
  get-put_new :
      (k id : OpId Key) (op v : PathOperation Key Link) (log : PathOpLog Key Link)
      → contains_key id log.operations ≡ false
      → get k log.operations ≡ some v
      → get k (put id op (advance_clock id log)).operations ≡ some v
  unfolding put contains_key
  get-put_new k id op v log f h =
      rw operations-advance_clock
        (ground (arith, get-insert id k op log.operations, cmp_op_id-eq k id))

  advance_clock-IsValid :
      (id : OpId Key) (log : PathOpLog Key Link)
      → IsValid log
      → id.timestamp + 1 < u64_mod
      → IsValid (advance_clock id log)
  advance_clock-IsValid id log v room = record {
    sorted = rw operations-advance_clock v.sorted;
    keyed = rw operations-advance_clock v.keyed;
    clocked = rw operations-advance_clock (
        Clocked-mono log.local_clock (advance_clock id log).local_clock log.operations
          (advance_clock_covers id log room).0 v.clocked);
  }

  module _ (resolver : ConflictResolver Key Link) (peer : Key) where
    get-resolve_entries :
        (k : OpId Key) (v : PathOperation Key Link)
        (es : BTreeMap (OpId Key) (PathOperation Key Link)) (log : PathOpLog Key Link)
        (r : MergeResult Key Link)
        → get k log.operations ≡ some v
        → get k (resolve_entries resolver peer es (log, r)).0.operations ≡ some v
    unfolding resolve_entries
    get-resolve_entries k v [] log r h = h
    get-resolve_entries k v ((id, op) ∷ es) log r h =
        let (log', r') = resolve_entry resolver peer (id, op) (log, r) in
        get-resolve_entries k v es log' r' (
          resolve_entry_keeps (λ l n. get k l.operations ≡ some v) resolver peer id op log r h
            (λ f. rw operations-advance_clock h) (λ f op' e. get-put_new k id op' v log f h))

    -- Whatever the strategy decides, every local operation is still there, unchanged.
    pub merge_with_resolver_retains :
        (a b : PathOpLog Key Link) (k : OpId Key) (v : PathOperation Key Link)
        → get k a.operations ≡ some v
        → get k (merge_with_resolver a b resolver peer).0.operations ≡ some v
    unfolding merge_with_resolver
    merge_with_resolver_retains a b k v h = get-resolve_entries k v b.operations a no_changes h

    len-resolve_entries :
        (es : BTreeMap (OpId Key) (PathOperation Key Link)) (log : PathOpLog Key Link)
        (r : MergeResult Key Link)
        → len (resolve_entries resolver peer es (log, r)).0 + r.operations_added
          ≡ len log + (resolve_entries resolver peer es (log, r)).1.operations_added
    unfolding resolve_entries
    len-resolve_entries [] log r = refl
    len-resolve_entries ((id, op) ∷ es) log r =
        let (log', r') = resolve_entry resolver peer (id, op) (log, r) in
        let step =
          resolve_entry_keeps (λ l n. len l + r.operations_added ≡ len log + n) resolver peer id op
            log r refl (λ f. unfold len in rw operations-advance_clock)
            (λ f op' e.
              unfold len put contains_key in
              rw operations-advance_clock (ground (arith, length-insert id op' log.operations))) in
        omega (arith, step, len-resolve_entries es log' r')

    -- `operations_added` is how much the log has grown.
    pub len-merge_with_resolver :
        (a b : PathOpLog Key Link)
        → len (merge_with_resolver a b resolver peer).0
          ≡ len a + (merge_with_resolver a b resolver peer).1.operations_added
    unfolding merge_with_resolver
    len-merge_with_resolver a b = omega (arith, len-resolve_entries b.operations a no_changes)

    resolve_entries-IsValid :
        (es : BTreeMap (OpId Key) (PathOperation Key Link)) (log : PathOpLog Key Link)
        (r : MergeResult Key Link)
        → IsValid log
        → Keyed es
        → HasRoom es
        → IsValid (resolve_entries resolver peer es (log, r)).0
    unfolding resolve_entries
    resolve_entries-IsValid [] log r v k h = v
    resolve_entries-IsValid ((id, op) ∷ es) log r v k h =
        let (log', r') = resolve_entry resolver peer (id, op) (log, r) in
        resolve_entries-IsValid es log' r'
          (resolve_entry_keeps (λ l n. IsValid l) resolver peer id op log r v
            (λ f. advance_clock-IsValid id log v h.0)
            (λ f op' e. rw put-advance_clock (add_and_advance-IsValid id op' log v (e ∙ k.0) h.0)))
          k.1 h.1

    -- Merging two valid logs with any strategy gives a valid log, where no timestamp of the second is
    -- the last of `u64`.
    pub merge_with_resolver-IsValid :
        (a b : PathOpLog Key Link)
        → IsValid a
        → IsValid b
        → HasRoom b.operations
        → IsValid (merge_with_resolver a b resolver peer).0
    unfolding merge_with_resolver
    merge_with_resolver-IsValid a b v w h =
        resolve_entries-IsValid b.operations a no_changes v w.keyed h
