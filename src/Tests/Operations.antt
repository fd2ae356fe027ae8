-- ===== src/Tests/Operations.antt =====
-- The operation log on small inputs.
use jax_fs.Prelude.{ℕ, false, ◌≡◌, refl, some, [], ◌∷◌, arith, if◌then◌else◌}
use jax_fs.Ord.{u64_ord, ◌==◌}
use jax_fs.Ord.Lex.{lex_ord}
use jax_fs.BTreeMap.{get}
use jax_fs.PathOps.Op.{OpType, op_id_ord, cmp_op_id}
use jax_fs.PathOps.Log.{PathOpLog, record_op, merge}
use jax_fs.PathOps.Resolve.{resolve_path, resolve_all}
use jax_fs.PathOps.Semilattice.{merge_comm}
use jax_fs.PathOps.ResolveAll.{standing, resolve_all-eq_winners}
use jax_fs.PathOps.RecordWins.{resolve_path-record_op}
use jax_fs.Tests.Logs.{
  a_path, b_path, added_1, removed_2, log_1, log_2, log_1-IsValid, log_2-IsValid, logs-Agree,
}

-- The removal comes last and wins; one path is not in the log.
test_resolve_path : resolve_path a_path (merge log_1 log_2).0 ≡ some removed_2
unfolding merge resolve_path cmp_op_id get
test_resolve_path = refl

test_resolve_all : resolve_all log_1 ≡ (a_path, added_1) ∷ []
unfolding resolve_all cmp_op_id
test_resolve_all = refl

merge_comm_example : (merge log_1 log_2).0.operations ≡ (merge log_2 log_1).0.operations
merge_comm_example = merge_comm log_1 log_2 log_1-IsValid.sorted log_2-IsValid.sorted logs-Agree

resolve_all-eq_winners_example :
    get a_path (resolve_all log_2) ≡ standing (resolve_path a_path log_2)
resolve_all-eq_winners_example = resolve_all-eq_winners a_path log_2

resolve_path-record_op_example :
    resolve_path a_path (record_op 1 OpType.add b_path (some 5) false log_1).0 ≡ (
      if b_path == a_path
      then some (record {
        id = (record_op 1 OpType.add b_path (some 5) false log_1).1;
        op_type = OpType.add;
        path = b_path;
        content_link = some 5;
        is_dir = false;
      })
      else resolve_path a_path log_1)
resolve_path-record_op_example =
    resolve_path-record_op 1 OpType.add b_path (some 5) false log_1 a_path log_1-IsValid
      (omega arith)

-- The log as it is decoded, its clock at 0.
abbrev decoded : PathOpLog ℕ ℕ
decoded = record log_2 { local_clock = 0 }
