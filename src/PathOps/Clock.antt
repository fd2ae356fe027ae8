-- ===== src/PathOps/Clock.antt =====
-- The clock of a log stays ahead of every operation that the log has seen.
use jax_fs.Prelude.{
  ℕ, ◌+◌, ◌≤◌, ◌<◌, ◌≡◌, none, false, [], ◌∷◌, arith, All, u64_mod, map, Option, Bool,
}
use jax_fs.Ord.{Ord, u64_ord, gtb}
use jax_fs.Ord.Max.{max_by_key_upper}
use jax_fs.BTreeMap.{BTreeMap, get, keys, All-insert}
use jax_fs.BTreeMap.Sorted.{insert-IsSorted}
use jax_fs.FilePath.{FilePath}
use jax_fs.PathOps.Op.{OpType, OpId, PathOperation, op_id_ord}
use jax_fs.PathOps.Log.{
  PathOpLog, put, advance_clock, merge_entry, merge_entries, merge, rebuild_clock, record_op,
}
use jax_fs.PathOps.Valid.{
  IsValid, Keyed, Clocked, HasRoom, Clocked-mono, advance_clock_covers, operations-advance_clock,
  merge_entry_keeps, get_past_clock,
}

module _ {Key Link : Type 0} ⦃o : Ord Key⦄ where
  -- Adding an operation under its identifier, the clock advanced past it, keeps the invariant.
  pub add_and_advance-IsValid :
      (id : OpId Key) (op : PathOperation Key Link) (log : PathOpLog Key Link)
      → IsValid log
      → op.id ≡ id
      → id.timestamp + 1 < u64_mod
      → IsValid (advance_clock id (put id op log))
  add_and_advance-IsValid id op log v e room =
      let covers = advance_clock_covers id (put id op log) room in
      let clock : ℕ = (advance_clock id (put id op log)).local_clock in
      record {
        sorted =
            rw operations-advance_clock
              (unfold put in insert-IsSorted id op log.operations v.sorted);
        keyed =
            rw operations-advance_clock
              (unfold put in All-insert (λ e. e.1.id ≡ e.0) id op log.operations e v.keyed);
        clocked = rw operations-advance_clock (
            unfold put in
            All-insert (λ e. e.0.timestamp ≤ clock) id op log.operations covers.1
              (Clocked-mono log.local_clock clock log.operations covers.0 v.clocked));
      }

  merge_entries-IsValid :
      (es : BTreeMap (OpId Key) (PathOperation Key Link)) (log : PathOpLog Key Link) (n : ℕ)
      → IsValid log
      → Keyed es
      → HasRoom es
      → IsValid (merge_entries es (log, n)).0
  unfolding merge_entries
  merge_entries-IsValid [] log n v k r = v
  merge_entries-IsValid ((id, op) ∷ es) log n v k r =
      let (log', n') = merge_entry (id, op) (log, n) in
      merge_entries-IsValid es log' n'
        (merge_entry_keeps (λ s. IsValid s.0) (id, op) log n v
          λ new. add_and_advance-IsValid id op log v k.0 r.0)
        k.1 r.1

  -- `merge` of two valid logs is valid, where no timestamp of the second is the last of `u64`.
  pub merge-IsValid :
      (a b : PathOpLog Key Link)
      → IsValid a
      → IsValid b
      → HasRoom b.operations
      → IsValid (merge a b).0
  unfolding merge
  merge-IsValid a b v w r = merge_entries-IsValid b.operations a 0 v w.keyed r

  module _ (peer_id : Key) (op_type : OpType) (path : FilePath) (link : Option Link) (is_dir : Bool)
      (log : PathOpLog Key Link) where
    -- `record` hands out an identifier that a valid log does not hold, while its clock has room.
    pub record_op_fresh :
        IsValid log
        → log.local_clock + 1 < u64_mod
        → get (record_op peer_id op_type path link is_dir log).1 log.operations ≡ none
    unfolding record_op
    record_op_fresh v room = get_past_clock _ log v (omega arith)

  rebuild_clock_covers :
      (ops : BTreeMap (OpId Key) (PathOperation Key Link)) (c : ℕ)
      → All (λ t. gtb t c ≡ false) (map (λ id. id.timestamp) (keys ops))
      → Clocked c ops
  unfolding keys
  rebuild_clock_covers [] c h = tt
  rebuild_clock_covers ((id, op) ∷ ops) c h = (ground arith, rebuild_clock_covers ops c h.1)

  -- `rebuild_clock` makes a log valid that some clock makes valid, whatever clock it came with.
  pub rebuild_clock-IsValid :
      (log : PathOpLog Key Link)
      → (clock : ℕ) → IsValid (record log { local_clock = clock })
      → IsValid (rebuild_clock log)
  unfolding rebuild_clock
  rebuild_clock-IsValid log clock v = record {
    sorted = v.sorted;
    keyed = v.keyed;
    clocked =
        rebuild_clock_covers log.operations _
          (max_by_key_upper (λ t. t) 0 (map (λ id. id.timestamp) (keys log.operations)));
  }
