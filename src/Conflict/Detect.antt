-- ===== src/Conflict/Detect.antt =====
-- crates/common/src/mount/conflict/mod.rs: which operations conflict.
use jax_fs.Prelude.{◌≡◌, arith, Bool, true, false, ◌&&◌, ◌||◌, if◌then◌else◌}
use jax_fs.Ord.{Ord, u64_ord, ◌==◌}
use jax_fs.Ord.Lex.{lex, lex_ord}
use jax_fs.FilePath.{FilePath}
use jax_fs.PathOps.Op.{OpType, PathOperation, op_id_ord}

unfoldable pub is_destructive : OpType → Bool
is_destructive OpType.remove = true
is_destructive (OpType.mv from) = true
is_destructive _ = false

unfoldable pub is_add : OpType → Bool
is_add OpType.add = true
is_add _ = false

module _ {Key Link : Type 0} ⦃o : Ord Key⦄ where
  unfoldable pub operations_conflict : PathOperation Key Link → PathOperation Key Link → Bool
  unfolding is_destructive is_add
  operations_conflict base incoming =
      if base.id == incoming.id
      then false
      else if base.path == incoming.path
      then is_destructive base.op_type
        || is_destructive incoming.op_type
        || (is_add base.op_type && is_add incoming.op_type)
      else false

  -- Operations that conflict are two operations on one path.
  pub conflict_same_path :
      (base incoming : PathOperation Key Link)
      → operations_conflict base incoming ≡ true
      → ((base.path == incoming.path) ≡ true) × ((base.id == incoming.id) ≡ false)
  unfolding operations_conflict
  conflict_same_path base incoming h = ground arith

-- Whether an operation is on the path that a move came from.
unfoldable pub conflicts_with_mv_source :
    {Key Link : Type 0} → PathOperation Key Link → FilePath → Bool
unfolding lex
conflicts_with_mv_source op mv_from = op.path == mv_from
