-- ===== src/InodeTable/Inverse.antt =====
-- The two tables are inverse to each other, which every operation keeps but a `rename` onto a path
-- that has a number.
use jax_fs.Prelude.{ℕ, ◌+◌, ◌%◌, ◌<◌, ◌≡◌, ◌≢◌, none, some, arith, u64_mod, Option-cases, inl, inr}
use jax_fs.Ord.{u64_ord, eq_of_==, ==_refl}
use jax_fs.Ord.Lex.{lex_ord}
use jax_fs.BTreeMap.{get, insert, remove, get-insert}
use jax_fs.BTreeMap.Sorted.{IsSorted, insert-IsSorted}
use jax_fs.BTreeMap.Removal.{remove-IsSorted, get-remove}
use jax_fs.FilePath.{Name}
use jax_fs.InodeTable.Paths.{root, normalize_path}
use jax_fs.InodeTable.Table.{
  InodeTable, root_inode, new_table, bind_new, get_or_create, get_inode, get_path, drop_inode,
  remove_inode, drop_path, remove_by_path, move_inode, rename,
}

pub record IsInverse (t : InodeTable) : Type 0 where
  pub paths_sorted : IsSorted t.path_to_inode
  pub inodes_sorted : IsSorted t.inode_to_path
  pub there : (s : Name) (i : ℕ) → get s t.path_to_inode ≡ some i → get i t.inode_to_path ≡ some s
  pub back : (i : ℕ) (s : Name) → get i t.inode_to_path ≡ some s → get s t.path_to_inode ≡ some i
  -- Every number in use was handed out by the counter.
  pub counted : (i : ℕ) (s : Name) → get i t.inode_to_path ≡ some s → i < t.next_inode

-- Binding two things of which neither is bound.
bound-IsInverse :
    (s : Name) (i next : ℕ) (t : InodeTable)
    → get s t.path_to_inode ≡ none
    → get i t.inode_to_path ≡ none
    → i < next
    → ((j : ℕ) (r : Name) → get j t.inode_to_path ≡ some r → j < next)
    → IsInverse t
    → IsInverse (record {
      path_to_inode = insert s i t.path_to_inode;
      inode_to_path = insert i s t.inode_to_path;
      next_inode = next;
    })
bound-IsInverse s i next t es ei less all v = record {
  paths_sorted = insert-IsSorted s i t.path_to_inode v.paths_sorted;
  inodes_sorted = insert-IsSorted i s t.inode_to_path v.inodes_sorted;
  there = λ r j e. ground (
    arith,
    e,
    get-insert s r i t.path_to_inode,
    get-insert i j s t.inode_to_path,
    v.there r j,
    eq_of_== r s,
    eq_of_== j i,
    ==_refl i,
    ei,
    es,
  );
  back = λ j r e. ground (
    arith,
    e,
    get-insert s r i t.path_to_inode,
    get-insert i j s t.inode_to_path,
    v.back j r,
    eq_of_== r s,
    eq_of_== j i,
    ==_refl s,
    ei,
    es,
  );
  counted =
      λ j r e. ground (arith, e, get-insert i j s t.inode_to_path, all j r, eq_of_== j i, less);
}

-- Unbinding two things that are bound to each other.
unbound-IsInverse :
    (s : Name) (i : ℕ) (t : InodeTable)
    → get s t.path_to_inode ≡ some i
    → get i t.inode_to_path ≡ some s
    → IsInverse t
    → IsInverse (record t {
      path_to_inode = remove s t.path_to_inode;
      inode_to_path = remove i t.inode_to_path;
    })
unbound-IsInverse s i t es ei v = record {
  paths_sorted = remove-IsSorted s t.path_to_inode v.paths_sorted;
  inodes_sorted = remove-IsSorted i t.inode_to_path v.inodes_sorted;
  there = λ r j e. ground (
    arith,
    e,
    get-remove s r t.path_to_inode v.paths_sorted,
    get-remove i j t.inode_to_path v.inodes_sorted,
    v.there r j,
    eq_of_== j i,
    ==_refl s,
    ei,
  );
  back = λ j r e. ground (
    arith,
    e,
    get-remove s r t.path_to_inode v.paths_sorted,
    get-remove i j t.inode_to_path v.inodes_sorted,
    v.back j r,
    eq_of_== r s,
    ==_refl i,
    es,
  );
  counted =
      λ j r e. ground (arith, e, get-remove i j t.inode_to_path v.inodes_sorted, v.counted j r);
}

-- Binding a number to another thing, which is not bound.
moved-IsInverse :
    (s r : Name) (i : ℕ) (t : InodeTable)
    → get s t.path_to_inode ≡ some i
    → get i t.inode_to_path ≡ some s
    → get r t.path_to_inode ≡ none
    → IsInverse t
    → IsInverse (record t {
      inode_to_path = insert i r t.inode_to_path;
      path_to_inode = insert r i (remove s t.path_to_inode);
    })
moved-IsInverse s r i t es ei er v = record {
  paths_sorted =
      insert-IsSorted r i (remove s t.path_to_inode)
        (remove-IsSorted s t.path_to_inode v.paths_sorted);
  inodes_sorted = insert-IsSorted i r t.inode_to_path v.inodes_sorted;
  there = λ q j e. ground (
    arith,
    e,
    get-insert r q i (remove s t.path_to_inode),
    get-remove s q t.path_to_inode v.paths_sorted,
    get-insert i j r t.inode_to_path,
    v.there q j,
    eq_of_== q r,
    eq_of_== j i,
    ==_refl i,
    ==_refl s,
    ei,
  );
  back = λ j q e. ground (
    arith,
    e,
    get-insert r q i (remove s t.path_to_inode),
    get-remove s q t.path_to_inode v.paths_sorted,
    get-insert i j r t.inode_to_path,
    v.back j q,
    eq_of_== q r,
    eq_of_== q s,
    eq_of_== j i,
    ==_refl r,
    ==_refl i,
    es,
    er,
  );
  counted = λ j q e.
      ground
        (arith, e, get-insert i j r t.inode_to_path, v.counted j q, v.counted i s ei, eq_of_== j i);
}

-- A table before anything is looked up, and after `clear`.
pub new_table-IsInverse : IsInverse new_table
unfolding get
new_table-IsInverse = record {
  paths_sorted = (tt, tt);
  inodes_sorted = (tt, tt);
  there = λ s i e. ground (arith, e, eq_of_== s root, ==_refl root_inode);
  back = λ i s e. ground (arith, e, eq_of_== i 1, ==_refl root);
  counted = λ i s e. ground (arith, e, eq_of_== i 1);
}

-- The counter itself is no number in use.
uncounted : (t : InodeTable) → IsInverse t → get t.next_inode t.inode_to_path ≡ none
uncounted t v = elim (Option-cases (get t.next_inode t.inode_to_path)) [
  | inl n ↦ n
  | inr (s, e) ↦ absurd (omega (arith, v.counted t.next_inode s e))
]

-- While the counter has room, `get_or_create` keeps the two tables inverse, and the number that it
-- returns stands for the path, in both directions.
pub get_or_create-IsInverse :
    (path : Name) (t : InodeTable)
    → IsInverse t
    → t.next_inode + 1 < u64_mod
    → IsInverse (get_or_create path t).0
      × (get_inode path (get_or_create path t).0 ≡ some (get_or_create path t).1)
      × (get_path (get_or_create path t).1 (get_or_create path t).0 ≡ some (normalize_path path))
unfolding get_or_create get_inode get_path
get_or_create-IsInverse path t v room =
    elim (Option-cases (get (normalize_path path) t.path_to_inode)) [
      | inr (i, e) ↦ rw e (unfold bind_new in (v, e, v.there (normalize_path path) i e))
      | inl n ↦
          let free = uncounted t v in
          rw n (
            unfold bind_new in
            (
              bound-IsInverse (normalize_path path) t.next_inode ((t.next_inode + 1) % u64_mod) t n
                  free (omega arith) (λ j r e. omega (arith, v.counted j r e)) v,
              ground (
                arith,
                get-insert (normalize_path path) (normalize_path path) t.next_inode t.path_to_inode,
                ==_refl (normalize_path path),
              ),
              ground (
                arith,
                get-insert t.next_inode t.next_inode (normalize_path path) t.inode_to_path,
                ==_refl t.next_inode,
              ),
            ))
    ]

-- Both removals keep the two tables inverse, and nothing is left of what they return.
pub removals-IsInverse :
    (t : InodeTable)
    → IsInverse t
    → ((inode : ℕ)
        → IsInverse (remove_inode inode t).0 × (get_path inode (remove_inode inode t).0 ≡ none))
      × ((path : Name)
          → IsInverse (remove_by_path path t).0 × (get_inode path (remove_by_path path t).0 ≡ none))
unfolding remove_inode remove_by_path get_path get_inode
removals-IsInverse t v = (
  λ inode. elim (Option-cases (get inode t.inode_to_path)) [
    | inl n ↦ rw n (unfold drop_inode in (v, n))
    | inr (s, e) ↦ rw e (
        unfold drop_inode in
        (
          unbound-IsInverse s inode t (v.back inode s e) e v,
          ground (arith, get-remove inode inode t.inode_to_path v.inodes_sorted, ==_refl inode),
        ))
  ],
  λ path. elim (Option-cases (get (normalize_path path) t.path_to_inode)) [
    | inl n ↦ rw n (unfold drop_path in (v, n))
    | inr (i, e) ↦ rw e (
        unfold drop_path in
        (
          unbound-IsInverse (normalize_path path) i t e (v.there (normalize_path path) i e) v,
          ground (
            arith,
            get-remove (normalize_path path) (normalize_path path) t.path_to_inode v.paths_sorted,
            ==_refl (normalize_path path),
          ),
        ))
  ],
)

-- `rename` keeps the two tables inverse where the new path has no number.
pub rename-IsInverse :
    (old_path new_path : Name) (t : InodeTable)
    → IsInverse t
    → get_inode new_path t ≡ none
    → IsInverse (rename old_path new_path t).0
unfolding rename get_inode
rename-IsInverse old_path new_path t v n =
    elim (Option-cases (get (normalize_path old_path) t.path_to_inode)) [
      | inl q ↦ rw q (unfold move_inode in v)
      | inr (i, e) ↦
          let was = v.there (normalize_path old_path) i e in
          rw e (
            unfold move_inode in
            moved-IsInverse (normalize_path old_path) (normalize_path new_path) i t e was n v)
    ]

-- Where the new path has another number than the old one, `rename` leaves that number standing for
-- the new path, which now has the number of the old one.
pub rename_stale :
    (old_path new_path : Name) (i j : ℕ) (t : InodeTable)
    → IsInverse t
    → get_inode old_path t ≡ some i
    → get_inode new_path t ≡ some j
    → i ≢ j
    → (get_path j (rename old_path new_path t).0 ≡ some (normalize_path new_path))
      × (get_inode new_path (rename old_path new_path t).0 ≡ some i)
unfolding rename get_inode get_path
rename_stale old_path new_path i j t v e f ne = rw e (
    unfold move_inode in
    (
      ground (
        arith,
        get-insert i j (normalize_path new_path) t.inode_to_path,
        v.there (normalize_path new_path) j f,
        eq_of_== j i,
        ne,
      ),
      ground (
        arith,
        get-insert (normalize_path new_path) (normalize_path new_path) i
            (remove (normalize_path old_path) t.path_to_inode),
        ==_refl (normalize_path new_path),
      ),
    ))
