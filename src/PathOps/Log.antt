-- ===== src/PathOps/Log.antt =====
-- crates/common/src/mount/path_ops.rs: `PathOpLog`, its clock, `record` and `merge`. A method that
-- takes `&mut self` returns the new log. Clock arithmetic wraps at 2^64 (a release build; a debug
-- build panics there).
use jax_fs.Prelude.{
  ℕ, ◌+◌, ◌%◌, Bool, Option, List, [], ◌∷◌, map, length, is_empty, leb, unwrap_or, if◌then◌else◌,
  u64_mod,
}
use jax_fs.Ord.{Ord, u64_ord}
use jax_fs.Ord.Max.{max_by_key}
use jax_fs.BTreeMap.{BTreeMap, contains_key, insert, keys}
use jax_fs.FilePath.{FilePath}
use jax_fs.PathOps.Op.{OpType, OpId, PathOperation, op_id_ord}

pub record PathOpLog (Key Link : Type 0) : Type 0 where
  pub operations : BTreeMap (OpId Key) (PathOperation Key Link)
  pub local_clock : ℕ

module _ {Key Link : Type 0} where
  abbrev pub new : PathOpLog Key Link
  new = record { operations = []; local_clock = 0 }

  unfoldable pub rebuild_clock : PathOpLog Key Link → PathOpLog Key Link
  unfolding keys max_by_key
  rebuild_clock log = record log {
    local_clock =
        unwrap_or (max_by_key (λ t. t) (map (λ id. id.timestamp) (keys log.operations))) 0;
  }

  unfoldable pub len : PathOpLog Key Link → ℕ
  len log = length log.operations

  unfoldable pub log_is_empty : PathOpLog Key Link → Bool
  log_is_empty log = is_empty log.operations

  unfoldable pub clear_preserving_clock : PathOpLog Key Link → PathOpLog Key Link
  clear_preserving_clock log = record log { operations = [] }

  -- `if id.timestamp >= self.local_clock { self.local_clock = id.timestamp + 1 }`
  unfoldable pub advance_clock : OpId Key → PathOpLog Key Link → PathOpLog Key Link
  advance_clock id log =
      if leb log.local_clock id.timestamp
      then record log { local_clock = (id.timestamp + 1) % u64_mod }
      else log

module _ {Key Link : Type 0} ⦃o : Ord Key⦄ where
  unfoldable pub put : OpId Key → PathOperation Key Link → PathOpLog Key Link → PathOpLog Key Link
  unfolding insert
  put id op log = record log { operations = insert id op log.operations }

  unfoldable pub from_operation : PathOperation Key Link → PathOpLog Key Link
  unfolding put
  from_operation op = record (put op.id op new) { local_clock = op.id.timestamp }

  -- `PathOpLog::record`
  unfoldable pub record_op :
      Key
      → OpType
      → FilePath
      → Option Link
      → Bool
      → PathOpLog Key Link
      → PathOpLog Key Link × OpId Key
  unfolding put
  record_op peer_id op_type path content_link is_dir log =
      let clock : ℕ = (log.local_clock + 1) % u64_mod in
      let id : OpId Key = record { timestamp = clock; peer_id = peer_id } in
      let op : PathOperation Key Link = record {
        id = id;
        op_type = op_type;
        path = path;
        content_link = content_link;
        is_dir = is_dir;
      } in
      (put id op (record log { local_clock = clock }), id)

  -- One round of the loop of `merge`: the log so far and the number of operations added.
  unfoldable pub merge_entry :
      OpId Key × PathOperation Key Link → PathOpLog Key Link × ℕ → PathOpLog Key Link × ℕ
  unfolding put contains_key advance_clock
  merge_entry (id, op) (log, added) =
      if contains_key id log.operations
      then (log, added)
      else (advance_clock id (put id op log), added + 1)

  unfoldable pub merge_entries :
      List (OpId Key × PathOperation Key Link) → PathOpLog Key Link × ℕ → PathOpLog Key Link × ℕ
  merge_entries [] s = s
  merge_entries (e ∷ rest) s = merge_entries rest (merge_entry e s)

  unfoldable pub merge : PathOpLog Key Link → PathOpLog Key Link → PathOpLog Key Link × ℕ
  unfolding merge_entry merge_entries
  merge log other = merge_entries other.operations (log, 0)
