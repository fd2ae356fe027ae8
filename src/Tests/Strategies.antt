-- ===== src/Tests/Strategies.antt =====
-- The strategies for conflicts on small inputs.
use jax_fs.Prelude.{ℕ, false, ◌≡◌, ◌≢◌, refl, Option, some, [], ◌∷◌, map_option}
use jax_fs.Ord.{u64_ord, ◌==◌}
use jax_fs.BTreeMap.{get}
use jax_fs.PathOps.Op.{OpType, PathOperation, op_id_ord, cmp_op_id}
use jax_fs.PathOps.Log.{PathOpLog, new, from_operation, merge}
use jax_fs.PathOps.Resolve.{resolve_path}
use jax_fs.PathOps.Valid.{IsValid}
use jax_fs.PathOps.MergeResolver.{merge_with_resolver}
use jax_fs.Conflict.Resolvers.{
  last_write_wins, base_wins, fork_on_conflict, conflict_file, conflict_path, u64_to_string,
}
use jax_fs.PathOps.LastWrite.{last_write_wins-resolve_path}
use jax_fs.PathOps.Converge.{last_write_wins_converges}
use jax_fs.PathOps.Retain.{merge_with_resolver_retains, merge_with_resolver-IsValid}
use jax_fs.PathOps.Fork.{fork_on_conflict-eq-merge}
use jax_fs.PathOps.BaseWins.{base_wins_revives, added_and_removed}
use jax_fs.PathOps.ConflictCopies.{conflict_file_diverges, add_op, copy_path}
use jax_fs.Tests.Logs.{
  a_path, id_of, added_1, log_1, log_2, log_1-IsValid, log_2-IsValid, log_2-HasRoom, logs-Agree,
}

-- Numbers stand for links, and their digits for the text of a hash.
test_u64_to_string : u64_to_string 1207 ≡ b'1' ∷ b'2' ∷ b'0' ∷ b'7' ∷ []
unfolding u64_to_string
test_u64_to_string = refl

test_conflict_path : conflict_path a_path (b'1' ∷ b'0' ∷ []) ≡ (b'a' ∷ b'@' ∷ b'1' ∷ b'0' ∷ []) ∷ []
unfolding conflict_path
test_conflict_path = refl

last_write_wins-resolve_path_example :
    resolve_path a_path (merge_with_resolver log_1 log_2 last_write_wins 1).0
    ≡ resolve_path a_path (merge log_1 log_2).0
last_write_wins-resolve_path_example =
    last_write_wins-resolve_path log_1 log_2 1 a_path log_1-IsValid log_2-IsValid

last_write_wins_converges_example :
    resolve_path a_path (merge_with_resolver log_1 log_2 last_write_wins 1).0
    ≡ resolve_path a_path (merge_with_resolver log_2 log_1 last_write_wins 2).0
last_write_wins_converges_example =
    last_write_wins_converges log_1 log_2 1 2 a_path log_1-IsValid log_2-IsValid logs-Agree

merge_with_resolver_retains_example :
    get (id_of 1 1) (merge_with_resolver log_1 log_2 base_wins 1).0.operations ≡ some added_1
merge_with_resolver_retains_example =
    merge_with_resolver_retains base_wins 1 log_1 log_2 (id_of 1 1) added_1
      (unfold get cmp_op_id in refl)

merge_with_resolver-IsValid_example : IsValid (merge_with_resolver log_1 log_2 base_wins 1).0
merge_with_resolver-IsValid_example =
    merge_with_resolver-IsValid base_wins 1 log_1 log_2 log_1-IsValid log_2-IsValid log_2-HasRoom

fork_on_conflict-eq-merge_example :
    ((merge_with_resolver log_1 log_2 fork_on_conflict 1).0 ≡ (merge log_1 log_2).0)
    × ((merge_with_resolver log_1 log_2 fork_on_conflict 1).1.operations_added
        ≡ (merge log_1 log_2).1)
fork_on_conflict-eq-merge_example = fork_on_conflict-eq-merge log_1 log_2 1

base_wins_revives_example :
    (map_option
        (λ op. op.op_type)
        (resolve_path {Key = ℕ} {Link = ℕ} a_path (added_and_removed 2 a_path (some 20)))
      ≡ some OpType.remove)
    × (map_option
          (λ op. op.op_type)
          (resolve_path {Key = ℕ} {Link = ℕ} a_path
            (merge_with_resolver
              (new {Key = ℕ})
              (added_and_removed 2 a_path (some 20))
              base_wins
              1).0)
        ≡ some OpType.add)
base_wins_revives_example = base_wins_revives 2 1 a_path (some 20)

a_path-ne : a_path ≢ []
a_path-ne e = cc

ids-ne : (id_of 1 1 == id_of 1 2) ≡ false
unfolding cmp_op_id
ids-ne = refl

abbrev add_10 : PathOperation ℕ ℕ
add_10 = add_op (id_of 1 1) a_path (some 10)

abbrev add_20 : PathOperation ℕ ℕ
add_20 = add_op (id_of 1 2) a_path (some 20)

abbrev at_first : PathOpLog ℕ ℕ
at_first =
    (merge_with_resolver (from_operation add_10) (from_operation add_20)
      (conflict_file u64_to_string 8) 1).0

abbrev at_second : PathOpLog ℕ ℕ
at_second =
    (merge_with_resolver (from_operation add_20) (from_operation add_10)
      (conflict_file u64_to_string 8) 2).0

-- A copy is named after the digits of its content.
conflict_file_diverges_example :
    (resolve_path a_path at_first ≡ some add_10)
    × (resolve_path (copy_path u64_to_string 8 add_20) at_first
        ≡ some (record add_20 { path = copy_path u64_to_string 8 add_20 }))
    × (resolve_path a_path at_second ≡ some add_20)
    × (resolve_path (copy_path u64_to_string 8 add_10) at_second
        ≡ some (record add_10 { path = copy_path u64_to_string 8 add_10 }))
    × (◌≢◌ {A = Option ℕ} (some 10) (some 20)
        → map_option (λ op. op.content_link) (resolve_path a_path at_first)
          ≢ map_option (λ op. op.content_link) (resolve_path a_path at_second))
conflict_file_diverges_example =
    conflict_file_diverges u64_to_string 8 (id_of 1 1) (id_of 1 2) a_path (some 10) (some 20) 1 2
      a_path-ne ids-ne
