-- ===== src/PathOps/Resolve.antt =====
-- crates/common/src/mount/path_ops.rs: what a log says of a path, and of all paths.
use jax_fs.Prelude.{
  Bool, true, false, not, Option, none, some, List, [], ◌∷◌, ◌++◌, filter, unwrap_or, if◌then◌else◌,
}
use jax_fs.Ord.{Ord, u64_ord, ◌==◌}
use jax_fs.Ord.Lex.{lex, lex_ord}
use jax_fs.Ord.Max.{max_by_key}
use jax_fs.BTreeMap.{BTreeMap, get, insert, values}
use jax_fs.FilePath.{FilePath}
use jax_fs.PathOps.Op.{OpType, PathOperation, op_id_ord}
use jax_fs.PathOps.Log.{PathOpLog}

unfoldable pub is_remove : OpType → Bool
is_remove OpType.remove = true
is_remove _ = false

module _ {Key Link : Type 0} where
  unfoldable pub ops_in_order : PathOpLog Key Link → List (PathOperation Key Link)
  unfolding values
  ops_in_order log = values log.operations

  unfoldable pub ops_for_path : FilePath → PathOpLog Key Link → List (PathOperation Key Link)
  unfolding values filter lex
  ops_for_path path log = filter (λ op. op.path == path) (values log.operations)

  -- `by_path.entry(&op.path).or_default().push(op)` for every operation in order.
  unfoldable pub group_by_path :
      List (PathOperation Key Link)
      → BTreeMap FilePath (List (PathOperation Key Link))
      → BTreeMap FilePath (List (PathOperation Key Link))
  unfolding get insert lex
  group_by_path [] acc = acc
  group_by_path (op ∷ ops) acc =
      group_by_path ops (insert op.path (unwrap_or (get op.path acc) [] ++ op ∷ []) acc)

  -- One path of `resolve_all`: the winner is kept unless it is a `Remove`.
  unfoldable pub keep_winner :
      FilePath
      → Option (PathOperation Key Link)
      → BTreeMap FilePath (PathOperation Key Link)
      → BTreeMap FilePath (PathOperation Key Link)
  unfolding insert is_remove lex
  keep_winner path none result = result
  keep_winner path (some winner) result =
      if not (is_remove winner.op_type) then insert path winner result else result

module _ {Key Link : Type 0} ⦃o : Ord Key⦄ where
  unfoldable pub resolve_path : FilePath → PathOpLog Key Link → Option (PathOperation Key Link)
  unfolding ops_for_path max_by_key
  resolve_path path log = max_by_key (λ op. op.id) (ops_for_path path log)

  unfoldable pub pick_winners :
      BTreeMap FilePath (List (PathOperation Key Link))
      → BTreeMap FilePath (PathOperation Key Link)
      → BTreeMap FilePath (PathOperation Key Link)
  unfolding keep_winner max_by_key
  pick_winners [] result = result
  pick_winners ((path, ops) ∷ rest) result =
      pick_winners rest (keep_winner path (max_by_key (λ op. op.id) ops) result)

  unfoldable pub resolve_all : PathOpLog Key Link → BTreeMap FilePath (PathOperation Key Link)
  unfolding values group_by_path pick_winners
  resolve_all log = pick_winners (group_by_path (values log.operations) []) []
