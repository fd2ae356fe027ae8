-- ===== src/PathOps/ConflictCopies.antt =====
-- The strategy `ConflictFile` for two `Add`s of one path: both contents are kept, under two names,
-- and each peer keeps its own content under the path itself.
use jax_fs.Prelude.{
  ℕ, ◌≡◌, ◌≢◌, refl, sym, ap, false, Option, none, some, [], ◌∷◌, ◌++◌, ◌∙◌, arith, length,
  length-append, unwrap_or, map_option, take,
}
use jax_fs.Ord.{Ord, ◌==◌, u64_ord, ==_comm, ==_of_ne}
use jax_fs.Ord.Lex.{lex_ord, lex_refl}
use jax_fs.BTreeMap.{get, insert, All-insert}
use jax_fs.BTreeMap.Sorted.{insert-IsSorted}
use jax_fs.FilePath.{Name, FilePath, parent, file_name}
use jax_fs.PathOps.Op.{OpType, OpId, PathOperation, op_id_ord}
use jax_fs.PathOps.Log.{from_operation, advance_clock}
use jax_fs.PathOps.Winner.{last_on, last_on-insert, resolve_path_last}
use jax_fs.PathOps.Resolve.{resolve_path}
use jax_fs.Conflict.Types.{Resolution}
use jax_fs.Conflict.Resolvers.{conflict_file, conflict_path, u64_to_string}
use jax_fs.PathOps.MergeResolver.{merge_with_resolver}

file_name-snoc : (p : FilePath) (n : Name) → file_name (p ++ n ∷ []) ≡ some n
unfolding file_name
file_name-snoc [] n = refl
file_name-snoc (m ∷ []) n = refl
file_name-snoc (m ∷ m' ∷ p) n = file_name-snoc (m' ∷ p) n

file_name-total : (p : FilePath) → p ≢ [] → (n : Name) × (file_name p ≡ some n)
unfolding file_name
file_name-total [] h = absurd (h refl)
file_name-total (n ∷ []) h = (n, refl)
file_name-total (n ∷ m ∷ p) h = file_name-total (m ∷ p) (λ e. cc)

longer : (n m : Name) (c : ℕ) → n ++ c ∷ m ≢ n
longer n m c e = omega (arith, ap length e, length-append {0} n (c ∷ m))

-- A conflict copy has another name than the file.
pub conflict_path-ne : (p : FilePath) (version : Name) → p ≢ [] → conflict_path p version ≢ p
unfolding conflict_path
conflict_path-ne p version h e =
    let (n, named) = file_name-total p h in
    let last = sym (file_name-snoc (unwrap_or (parent p) []) _) ∙ ap file_name e in
    longer n version b'@' (ground (arith, last, named))

-- The version in the name of a conflict copy.
abbrev pub version_of : {Key Link : Type 0} → (Link → Name) → ℕ → PathOperation Key Link → Name
version_of hash_text hash_length op =
    unwrap_or (map_option (λ link. take hash_length (hash_text link)) op.content_link)
      (u64_to_string op.id.timestamp)

module _ {Key Link : Type 0} ⦃o : Ord Key⦄ where
  abbrev pub add_op : OpId Key → FilePath → Option Link → PathOperation Key Link
  add_op id path link = record {
    id = id;
    op_type = OpType.add;
    path = path;
    content_link = link;
    is_dir = false;
  }

  module _ (hash_text : Link → Name) (hash_length : ℕ) where
    -- The name under which the incoming content of a conflict is kept.
    abbrev pub copy_path : PathOperation Key Link → FilePath
    copy_path op = conflict_path op.path (version_of hash_text hash_length op)

    conflict_file-add :
        (i j : OpId Key) (path : FilePath) (k l : Option Link) (peer : Key)
        → conflict_file hash_text hash_length
            (record { path = path; base = add_op i path k; incoming = add_op j path l })
            peer
          ≡ Resolution.rename_incoming (copy_path (add_op j path l))
    unfolding conflict_file
    conflict_file-add i j path none none peer = refl
    conflict_file-add i j path k none peer = refl
    conflict_file-add i j path k (some l) peer = refl

    merged_operations :
        (i j : OpId Key) (path : FilePath) (k l : Option Link) (peer : Key)
        → (i == j) ≡ false
        → (merge_with_resolver
            (from_operation (add_op i path k))
            (from_operation (add_op j path l))
            (conflict_file hash_text hash_length)
            peer).0.operations
          ≡ insert j
              (record (add_op j path l) { path = copy_path (add_op j path l) })
              ((i, add_op i path k) ∷ [])
    unfolding merge_with_resolver from_operation get advance_clock
    merged_operations i j path k l peer ne =
        let apart : (j == i) ≡ false = ==_comm j i ∙ ne in
        ground (arith, ne, conflict_file-add i j path k l peer, lex_refl path)

    -- A merge of one `Add` into a log with another `Add` of the same path, not the root, under another
    -- identifier, by `ConflictFile`: the path keeps the local content, and the incoming content stands
    -- under the copy's path.
    pub conflict_file_copies :
        (i j : OpId Key) (path : FilePath) (k l : Option Link) (peer : Key)
        → path ≢ []
        → (i == j) ≡ false
        → (resolve_path path
              (merge_with_resolver
                (from_operation (add_op i path k))
                (from_operation (add_op j path l))
                (conflict_file hash_text hash_length)
                peer).0
            ≡ some (add_op i path k))
          × (resolve_path
                (copy_path (add_op j path l))
                (merge_with_resolver
                  (from_operation (add_op i path k))
                  (from_operation (add_op j path l))
                  (conflict_file hash_text hash_length)
                  peer).0
              ≡ some (record (add_op j path l) { path = copy_path (add_op j path l) }))
    unfolding last_on get
    conflict_file_copies i j path k l peer h ne =
        let copy = copy_path (add_op j path l) in
        let other : (copy == path) ≡ false = ==_of_ne copy path (conflict_path-ne path _ h) in
        let other' : (path == copy) ≡ false = ==_comm path copy ∙ other in
        let apart : (j == i) ≡ false = ==_comm j i ∙ ne in
        let both = merged_operations i j path k l peer ne in
        let read = λ (q : FilePath).
          resolve_path_last q
            (merge_with_resolver (from_operation (add_op i path k))
              (from_operation (add_op j path l)) (conflict_file hash_text hash_length) peer).0
            (rw both (insert-IsSorted j _ ((i, add_op i path k) ∷ []) (tt, tt)))
            (rw both
              (All-insert (λ e. e.1.id ≡ e.0) j _ ((i, add_op i path k) ∷ []) refl (refl, tt)))
          ∙ ap (last_on q) both
          ∙ last_on-insert q j _ ((i, add_op i path k) ∷ []) (tt, tt) (refl, tt) refl
              (ground (arith, apart)) in
        (
          read path ∙ ground (arith, other, lex_refl path),
          read copy ∙ ground (arith, other', lex_refl copy),
        )

    -- After two peers with `Add`s of one path, not the root, under different identifiers, have merged
    -- each other's log by `ConflictFile`: at the first peer the path stands for its own `Add`, with
    -- its content, and the path of the copy for the second peer's operation, under that path and
    -- with the second content; at the second peer it is the other way round. Where the contents
    -- differ, the path has different content links at the two peers, whichever operation is the
    -- later one.
    pub conflict_file_diverges :
        (i j : OpId Key) (path : FilePath) (k l : Option Link) (p q : Key)
        → path ≢ []
        → (i == j) ≡ false
        → let mine = add_op i path k in
          let theirs = add_op j path l in
          let first =
            (merge_with_resolver
              (from_operation mine)
              (from_operation theirs)
              (conflict_file hash_text hash_length)
              p).0 in
          let second =
            (merge_with_resolver
              (from_operation theirs)
              (from_operation mine)
              (conflict_file hash_text hash_length)
              q).0 in
          (resolve_path path first ≡ some mine)
          × (resolve_path (copy_path theirs) first
              ≡ some (record theirs { path = copy_path theirs }))
          × (resolve_path path second ≡ some theirs)
          × (resolve_path (copy_path mine) second ≡ some (record mine { path = copy_path mine }))
          × (k ≢ l
              → map_option (λ op. op.content_link) (resolve_path path first)
                ≢ map_option (λ op. op.content_link) (resolve_path path second))
    conflict_file_diverges i j path k l p q h ne =
        let here = conflict_file_copies i j path k l p h ne in
        let there = conflict_file_copies j i path l k q h (==_comm j i ∙ ne) in
        (
          here.0,
          here.1,
          there.0,
          there.1,
          λ differ e.
              let same : ◌≡◌ {A = Option (Option Link)} (some k) (some l) =
                sym (ap (map_option (λ op. op.content_link)) here.0)
                ∙ e
                ∙ ap (map_option (λ op. op.content_link)) there.0 in
              differ (cc same),
        )
