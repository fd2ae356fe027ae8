-- ===== src/PathOps/LastWrite.antt =====
-- The strategy `LastWriteWins` against the plain `merge`: both leave every path to the same winner.
use jax_fs.Prelude.{
  ℕ, ◌≡◌, refl, sym, true, false, Option, none, some, [], ◌∷◌, ◌∙◌, arith, All, All-All, All-find,
  inl, inr, Bool-cases, to_list, find, find-eq_some,
}
use jax_fs.Ord.{Ord, ◌==◌, ◌≺◌, gtb, u64_ord}
use jax_fs.Ord.Lex.{lex_ord}
use jax_fs.BTreeMap.{BTreeMap, get, contains_key, insert, values, get_of_absent}
use jax_fs.BTreeMap.Sorted.{IsSorted, Above}
use jax_fs.FilePath.{FilePath}
use jax_fs.PathOps.Op.{OpId, PathOperation, op_id_ord, cmp_op_id_refl, cmp_op_id-eq}
use jax_fs.PathOps.Log.{PathOpLog, put, advance_clock, merge_entry, merge_entries, merge}
use jax_fs.PathOps.Valid.{
  IsValid, Keyed, operations-advance_clock, merge_entry_old, merge_entry_new,
}
use jax_fs.PathOps.Resolve.{resolve_path}
use jax_fs.PathOps.Winner.{resolve_path_last}
use jax_fs.Conflict.Types.{MergeResult, no_changes}
use jax_fs.Conflict.Detect.{operations_conflict, conflict_same_path}
use jax_fs.Conflict.Resolvers.{last_write_wins}
use jax_fs.PathOps.MergeResolver.{
  settle, apply_resolution, resolve_entry, resolve_entries, merge_with_resolver,
}
use jax_fs.PathOps.Outcome.{resolve_entry_old, resolve_entry_new}
use jax_fs.PathOps.Related.{Covered, All-Covered, Related, Related-both, Related-skip}

module _ {Key Link : Type 0} ⦃o : Ord Key⦄ where
  -- The operations after a round, for each decision of the strategy.
  operations-merge_entry :
      (id : OpId Key) (op : PathOperation Key Link) (log : PathOpLog Key Link) (n : ℕ)
      → contains_key id log.operations ≡ false
      → (merge_entry (id, op) (log, n)).0.operations ≡ insert id op log.operations
  operations-merge_entry id op log n f =
      rw (merge_entry_new id op log n f)
        (operations-advance_clock id (put id op log) ∙ unfold put in refl)

  settle_later :
      (peer : Key) (base : Option (PathOperation Key Link)) (id : OpId Key)
      (op : PathOperation Key Link) (log : PathOpLog Key Link) (r : MergeResult Key Link)
      → All (λ b. gtb op.id b.id ≡ true) (to_list base)
      → (settle last_write_wins peer base id op (log, r)).0.operations ≡ insert id op log.operations
  unfolding settle apply_resolution last_write_wins
  settle_later peer none id op log r h = refl
  settle_later peer (some base) id op log r h = rw (h.0, apply_resolution)

  settle_earlier :
      (peer : Key) (base : PathOperation Key Link) (id : OpId Key) (op : PathOperation Key Link)
      (log : PathOpLog Key Link) (r : MergeResult Key Link)
      → gtb op.id base.id ≡ false
      → (settle last_write_wins peer (some base) id op (log, r)).0.operations ≡ log.operations
  unfolding settle apply_resolution last_write_wins
  settle_earlier peer base id op log r h = rw (h, apply_resolution)

  Related-tail :
      (e : OpId Key × PathOperation Key Link)
      (mb ml es : BTreeMap (OpId Key) (PathOperation Key Link))
      → Related mb ml (e ∷ es)
      → Related mb ml es
  Related-tail e mb ml es r = record {
    sorted_b = r.sorted_b;
    sorted_l = r.sorted_l;
    keyed_b = r.keyed_b;
    keyed_l = r.keyed_l;
    same = r.same;
    ahead = r.ahead.1;
  }

  earlier_of_conflict :
      (base op : PathOperation Key Link)
      → (base.id == op.id) ≡ false
      → gtb op.id base.id ≡ false
      → op.id ≺ base.id
  earlier_of_conflict base op h k =
      ground (arith, cmp_op_id-eq op.id base.id, cmp_op_id_refl base.id)

  module _ (peer : Key) (id : OpId Key) (op : PathOperation Key Link) (lb ll : PathOpLog Key Link)
      (n : ℕ) (r : MergeResult Key Link) (es : BTreeMap (OpId Key) (PathOperation Key Link))
      (above : Above id es) (named : op.id ≡ id) where
    settled :
        get id lb.operations ≡ none
        → get id ll.operations ≡ none
        → Related lb.operations ll.operations ((id, op) ∷ es)
        → (base : Option (PathOperation Key Link))
        → find (λ existing. operations_conflict existing op) (values ll.operations) ≡ base
        → Related
            (insert id op lb.operations)
            (settle last_write_wins peer base id op (advance_clock id ll, r)).0.operations
            es
    settled nb nl rel none e =
        rw (settle_later peer none id op (advance_clock id ll) r tt, operations-advance_clock id ll)
          (Related-both id op lb.operations ll.operations es above named nb nl rel)
    settled nb nl rel (some base) e =
        let (on_path, other) =
          conflict_same_path base op
            (find-eq_some (λ x. operations_conflict x op) (values ll.operations) e) in
        let covered =
          All-find (Covered op.path ll.operations) (λ x. operations_conflict x op)
            (values ll.operations) (All-Covered op.path ll.operations rel.sorted_l rel.keyed_l) e in
        elim (Bool-cases (gtb op.id base.id)) [
          | inl t ↦
              rw
                (
                  settle_later peer (some base) id op (advance_clock id ll) r (t, tt),
                  operations-advance_clock id ll,
                )
                (Related-both id op lb.operations ll.operations es above named nb nl rel)
          | inr f ↦
              rw
                (
                  settle_earlier peer base id op (advance_clock id ll) r f,
                  operations-advance_clock id ll,
                )
                (Related-skip id op lb.operations ll.operations es above named nb nl base covered
                  on_path (earlier_of_conflict base op other f) rel)
        ]

    Related-step :
        Related lb.operations ll.operations ((id, op) ∷ es)
        → Related
            (merge_entry (id, op) (lb, n)).0.operations
            (resolve_entry last_write_wins peer (id, op) (ll, r)).0.operations
            es
    Related-step rel = elim (Bool-cases (contains_key id ll.operations)) [
      | inl t ↦
          rw
            (
              merge_entry_old id op lb n (unfold contains_key in rw rel.ahead.0 t),
              resolve_entry_old last_write_wins peer id op ll r t,
            )
            (Related-tail (id, op) lb.operations ll.operations es rel)
      | inr f ↦
          rw
            (
              operations-merge_entry id op lb n (unfold contains_key in rw rel.ahead.0 f),
              resolve_entry_new last_write_wins peer id op ll r f,
            )
            (settled (rel.ahead.0 ∙ get_of_absent id ll.operations f)
              (get_of_absent id ll.operations f) rel _ refl)
    ]

  Related-loop :
      (peer : Key) (es : BTreeMap (OpId Key) (PathOperation Key Link)) (lb ll : PathOpLog Key Link)
      (n : ℕ) (r : MergeResult Key Link)
      → IsSorted es
      → Keyed es
      → Related lb.operations ll.operations es
      → Related
          (merge_entries es (lb, n)).0.operations
          (resolve_entries last_write_wins peer es (ll, r)).0.operations
          []
  unfolding merge_entries resolve_entries
  Related-loop peer [] lb ll n r s k rel = rel
  Related-loop peer ((id, op) ∷ es) lb ll n r s k rel =
      let (lb', n') = merge_entry (id, op) (lb, n) in
      let (ll', r') = resolve_entry last_write_wins peer (id, op) (ll, r) in
      Related-loop peer es lb' ll' n' r' s.1 k.1 (Related-step peer id op lb ll n r es s.0 k.0 rel)

  -- For two valid logs, a merge by `LastWriteWins` and the plain `merge` give every path the same
  -- winning operation, though the former may leave out operations that lose.
  pub last_write_wins-resolve_path :
      (a b : PathOpLog Key Link) (peer : Key) (path : FilePath)
      → IsValid a
      → IsValid b
      → resolve_path path (merge_with_resolver a b last_write_wins peer).0
        ≡ resolve_path path (merge a b).0
  unfolding merge_with_resolver merge
  last_write_wins-resolve_path a b peer path v w =
      let end = Related-loop peer b.operations a a 0 no_changes w.sorted w.keyed (record {
        sorted_b = v.sorted;
        sorted_l = v.sorted;
        keyed_b = v.keyed;
        keyed_l = v.keyed;
        same = λ p. refl;
        ahead = All-All (λ e. refl) b.operations;
      }) in
      resolve_path_last path _ end.sorted_l end.keyed_l
      ∙ sym (end.same path)
      ∙ sym (resolve_path_last path _ end.sorted_b end.keyed_b)
