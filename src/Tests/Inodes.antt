-- ===== src/Tests/Inodes.antt =====
-- The table of inodes on small inputs: the paths "/a" and "/b" have the numbers 2 and 3.
use jax_fs.Prelude.{◌++◌, ◌≡◌, refl, some, [], ◌∷◌, arith}
use jax_fs.Ord.{u64_ord}
use jax_fs.Ord.Lex.{lex_ord}
use jax_fs.FilePath.{Name}
use jax_fs.InodeTable.Paths.{normalize_path, parent_path, filename}
use jax_fs.InodeTable.Table.{InodeTable, new_table, get_or_create, get_inode, get_path, rename}
use jax_fs.InodeTable.Inverse.{
  IsInverse, new_table-IsInverse, get_or_create-IsInverse, rename_stale,
}

abbrev a : Name
a = b'a' ∷ []

abbrev b : Name
b = b' ' ∷ b'/' ∷ b'b' ∷ b'/' ∷ []

test_normalize_path : normalize_path b ≡ b'/' ∷ b'b' ∷ []
unfolding normalize_path
test_normalize_path = refl

abbrev with_a : InodeTable
with_a = (get_or_create a new_table).0

abbrev with_both : InodeTable
with_both = (get_or_create b with_a).0

with_a-IsInverse : IsInverse with_a
with_a-IsInverse = (get_or_create-IsInverse a new_table new_table-IsInverse (omega arith)).0

with_both-IsInverse : IsInverse with_both
with_both-IsInverse =
    (get_or_create-IsInverse b with_a with_a-IsInverse (unfold get_or_create in omega arith)).0

get_or_create-IsInverse_example :
    IsInverse (get_or_create a new_table).0
    × (get_inode a (get_or_create a new_table).0 ≡ some (get_or_create a new_table).1)
    × (get_path (get_or_create a new_table).1 (get_or_create a new_table).0
        ≡ some (normalize_path a))
get_or_create-IsInverse_example =
    get_or_create-IsInverse a new_table new_table-IsInverse (omega arith)

rename_stale_example :
    (get_path 3 (rename a b with_both).0 ≡ some (normalize_path b))
    × (get_inode b (rename a b with_both).0 ≡ some 2)
rename_stale_example =
    rename_stale a b 2 3 with_both with_both-IsInverse (unfold get_inode get_or_create in refl)
      (unfold get_inode get_or_create in refl) (λ e. omega arith)

-- For "/c/d", and for the same with a slash behind it, which `filename` does not take off.
abbrev d : Name
d = b'/' ∷ b'c' ∷ b'/' ∷ b'd' ∷ []

test_parent_path : parent_path d ≡ b'/' ∷ b'c' ∷ []
unfolding parent_path
test_parent_path = refl

test_filename : filename d ≡ b'd' ∷ []
unfolding filename
test_filename = refl

test_filename_slash : filename (d ++ b'/' ∷ []) ≡ []
unfolding filename
test_filename_slash = refl
