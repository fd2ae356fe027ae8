-- ===== src/InodeTable/Table.antt =====
-- crates/daemon/src/fuse/inode_table.rs: the two tables and their operations. A method that takes
-- `&mut self` returns the new table; the counter wraps at 2^64, as an atomic one does.
use jax_fs.Prelude.{ℕ, ◌+◌, ◌%◌, Option, none, some, [], ◌∷◌, u64_mod}
use jax_fs.Ord.{u64_ord}
use jax_fs.Ord.Lex.{lex, lex_ord}
use jax_fs.BTreeMap.{BTreeMap, get, insert, remove}
use jax_fs.FilePath.{Name}
use jax_fs.InodeTable.Paths.{root, normalize_path}

pub record InodeTable : Type 0 where
  pub path_to_inode : BTreeMap Name ℕ
  pub inode_to_path : BTreeMap ℕ Name
  pub next_inode : ℕ

abbrev pub root_inode : ℕ
root_inode = 1

-- `InodeTable::new`, which is also what `clear` leaves.
abbrev pub new_table : InodeTable
new_table = record {
  path_to_inode = (root, root_inode) ∷ [];
  inode_to_path = (root_inode, root) ∷ [];
  next_inode = 2;
}

unfoldable pub clear : InodeTable → InodeTable
clear t = new_table

unfoldable pub bind_new : Option ℕ → Name → InodeTable → InodeTable × ℕ
unfolding insert lex
bind_new (some inode) normalized t = (t, inode)
bind_new none normalized t = (
  record {
    path_to_inode = insert normalized t.next_inode t.path_to_inode;
    inode_to_path = insert t.next_inode normalized t.inode_to_path;
    next_inode = (t.next_inode + 1) % u64_mod;
  },
  t.next_inode,
)

unfoldable pub get_or_create : Name → InodeTable → InodeTable × ℕ
unfolding bind_new normalize_path get
get_or_create path t = bind_new (get (normalize_path path) t.path_to_inode) (normalize_path path) t

unfoldable pub get_inode : Name → InodeTable → Option ℕ
unfolding get normalize_path
get_inode path t = get (normalize_path path) t.path_to_inode

unfoldable pub get_path : ℕ → InodeTable → Option Name
unfolding get
get_path inode t = get inode t.inode_to_path

unfoldable pub drop_inode : Option Name → ℕ → InodeTable → InodeTable × Option Name
unfolding remove lex
drop_inode none inode t = (t, none)
drop_inode (some path) inode t = (
  record t {
    inode_to_path = remove inode t.inode_to_path;
    path_to_inode = remove path t.path_to_inode;
  },
  some path,
)

-- `InodeTable::remove`
unfoldable pub remove_inode : ℕ → InodeTable → InodeTable × Option Name
unfolding drop_inode get
remove_inode inode t = drop_inode (get inode t.inode_to_path) inode t

unfoldable pub drop_path : Option ℕ → Name → InodeTable → InodeTable × Option ℕ
unfolding remove lex
drop_path none normalized t = (t, none)
drop_path (some inode) normalized t = (
  record t {
    path_to_inode = remove normalized t.path_to_inode;
    inode_to_path = remove inode t.inode_to_path;
  },
  some inode,
)

unfoldable pub remove_by_path : Name → InodeTable → InodeTable × Option ℕ
unfolding drop_path normalize_path get
remove_by_path path t =
    drop_path (get (normalize_path path) t.path_to_inode) (normalize_path path) t

unfoldable pub move_inode : Option ℕ → Name → Name → InodeTable → InodeTable × Option ℕ
unfolding remove insert lex
move_inode none old_normalized new_normalized t = (t, none)
move_inode (some inode) old_normalized new_normalized t = (
  record t {
    inode_to_path = insert inode new_normalized t.inode_to_path;
    path_to_inode = insert new_normalized inode (remove old_normalized t.path_to_inode);
  },
  some inode,
)

unfoldable pub rename : Name → Name → InodeTable → InodeTable × Option ℕ
unfolding move_inode normalize_path get
rename old_path new_path t =
    move_inode (get (normalize_path old_path) t.path_to_inode) (normalize_path old_path)
      (normalize_path new_path) t
