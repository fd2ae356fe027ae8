-- ===== src/PathOps/BaseWins.antt =====
-- The strategy `BaseWins`: it keeps a local removal or move against everything that comes in, and
-- it also turns the incoming log against itself.
use jax_fs.Prelude.{
  ◌≡◌, refl, sym, true, false, Option, none, some, [], ◌∷◌, ◌∙◌, arith, Bool, map_option,
  Bool-cases, inl, inr, find,
}
use jax_fs.Ord.{Ord, ◌==◌, u64_ord, ==_comm}
use jax_fs.Ord.Lex.{lex_ord, lex_refl}
use jax_fs.BTreeMap.{
  BTreeMap, get, contains_key, insert, values, get-insert, All-insert, All-get, get_of_absent,
}
use jax_fs.BTreeMap.Sorted.{IsSorted, insert-IsSorted}
use jax_fs.FilePath.{FilePath}
use jax_fs.PathOps.Op.{OpType, OpId, PathOperation, op_id_ord, cmp_op_id, cmp_op_id-eq}
use jax_fs.PathOps.Log.{PathOpLog, new, advance_clock, record_op}
use jax_fs.PathOps.Valid.{IsValid, Keyed, operations-advance_clock}
use jax_fs.PathOps.Resolve.{resolve_path}
use jax_fs.PathOps.Winner.{last_on, last_on-insert, resolve_path_last}
use jax_fs.Conflict.Types.{MergeResult, no_changes}
use jax_fs.Conflict.Detect.{operations_conflict, is_destructive}
use jax_fs.Conflict.Resolvers.{base_wins}
use jax_fs.PathOps.MergeResolver.{settle, resolve_entry, resolve_entries, merge_with_resolver}
use jax_fs.PathOps.Outcome.{resolve_entry_old, resolve_entry_new}

module _ {Key Link : Type 0} ⦃o : Ord Key⦄ where
  find-none :
      (p : PathOperation Key Link → Bool) (ops : BTreeMap (OpId Key) (PathOperation Key Link))
      (k : OpId Key) (v : PathOperation Key Link)
      → find p (values ops) ≡ none
      → get k ops ≡ some v
      → p v ≡ false
  unfolding find values get
  find-none p [] k v h e = cc
  find-none p ((j, w) ∷ ops) k v h e = elim (Bool-cases (k == j)) [
    | inl t ↦ let same : w ≡ v = ground arith in rw (← same) (ground arith)
    | inr f ↦ find-none p ops k v (ground arith) (ground arith)
  ]

  module _ (peer : Key) (k : OpId Key) (e : PathOperation Key Link)
      (m : BTreeMap (OpId Key) (PathOperation Key Link))
      (destroys : is_destructive e.op_type ≡ true) where
    -- The local operation is there, and its path resolves as it did.
    record Guarded (ops : BTreeMap (OpId Key) (PathOperation Key Link)) : Type 0 where
      sorted : IsSorted ops
      keyed : Keyed ops
      held : get k ops ≡ some e
      same : last_on e.path ops ≡ last_on e.path m

    Guarded-insert :
        (id : OpId Key) (op : PathOperation Key Link)
        (ops : BTreeMap (OpId Key) (PathOperation Key Link))
        → op.id ≡ id
        → get id ops ≡ none
        → operations_conflict e op ≡ false
        → Guarded ops
        → Guarded (insert id op ops)
    unfolding operations_conflict
    Guarded-insert id op ops named absent calm g =
        let own : e.id ≡ k = All-get (λ x. x.1.id ≡ x.0) k ops g.keyed g.held in
        let other : (k == id) ≡ false = ground (arith, cmp_op_id-eq k id, g.held) in
        let elsewhere : (e.path == op.path) ≡ false = ground arith in
        let elsewhere' : (op.path == e.path) ≡ false = ==_comm op.path e.path ∙ elsewhere in
        record {
          sorted = insert-IsSorted id op ops g.sorted;
          keyed = All-insert (λ x. x.1.id ≡ x.0) id op ops named g.keyed;
          held = ground (arith, get-insert id k op ops, g.held);
          same =
              last_on-insert e.path id op ops g.sorted g.keyed named absent ∙ rw elsewhere' g.same;
        }

    settle-Guarded :
        (id : OpId Key) (op : PathOperation Key Link) (log : PathOpLog Key Link)
        (r : MergeResult Key Link)
        → op.id ≡ id
        → get id log.operations ≡ none
        → Guarded log.operations
        → (base : Option (PathOperation Key Link))
        → find (λ existing. operations_conflict existing op) (values log.operations) ≡ base
        → Guarded (settle base_wins peer base id op (log, r)).0.operations
    unfolding settle base_wins
    settle-Guarded id op log r named absent g none f =
        Guarded-insert id op log.operations named absent
          (find-none (λ x. operations_conflict x op) log.operations k e f g.held) g
    settle-Guarded id op log r named absent g (some base) f = g

    resolve_entry-Guarded :
        (id : OpId Key) (op : PathOperation Key Link) (log : PathOpLog Key Link)
        (r : MergeResult Key Link)
        → op.id ≡ id
        → Guarded log.operations
        → Guarded (resolve_entry base_wins peer (id, op) (log, r)).0.operations
    resolve_entry-Guarded id op log r named g = elim (Bool-cases (contains_key id log.operations)) [
      | inl t ↦ rw (resolve_entry_old base_wins peer id op log r t) g
      | inr f ↦ rw (resolve_entry_new base_wins peer id op log r f) (
          settle-Guarded id op (advance_clock id log) r named
            (rw operations-advance_clock (get_of_absent id log.operations f))
            (rw operations-advance_clock g) _ (rw operations-advance_clock))
    ]

    resolve_entries-Guarded :
        (es : BTreeMap (OpId Key) (PathOperation Key Link)) (log : PathOpLog Key Link)
        (r : MergeResult Key Link)
        → Keyed es
        → Guarded log.operations
        → Guarded (resolve_entries base_wins peer es (log, r)).0.operations
    unfolding resolve_entries
    resolve_entries-Guarded [] log r h g = g
    resolve_entries-Guarded ((id, op) ∷ es) log r h g =
        let (log', r') = resolve_entry base_wins peer (id, op) (log, r) in
        resolve_entries-Guarded es log' r' h.1 (resolve_entry-Guarded id op log r h.0 g)

  -- Where a valid local log holds a `Remove` of a path or a `Mv` to it, a merge of a valid log by
  -- `BaseWins` leaves the path to the operation that won it before, whatever comes in.
  pub base_wins_keeps_path :
      (a b : PathOpLog Key Link) (peer : Key) (k : OpId Key) (e : PathOperation Key Link)
      → IsValid a
      → IsValid b
      → get k a.operations ≡ some e
      → is_destructive e.op_type ≡ true
      → resolve_path e.path (merge_with_resolver a b base_wins peer).0 ≡ resolve_path e.path a
  unfolding merge_with_resolver
  base_wins_keeps_path a b peer k e v w h d =
      let end =
        resolve_entries-Guarded peer k e a.operations d b.operations a no_changes w.keyed
          (record { sorted = v.sorted; keyed = v.keyed; held = h; same = refl }) in
      resolve_path_last e.path _ end.sorted end.keyed
      ∙ end.same
      ∙ sym (resolve_path_last e.path a v.sorted v.keyed)

  -- A peer adds a file and removes it.
  abbrev pub added_and_removed : Key → FilePath → Option Link → PathOpLog Key Link
  added_and_removed author path link =
      (record_op author OpType.remove path none false
        (record_op author OpType.add path link false new).0).0

  -- Merged by `BaseWins` into a log with no operation at all, the history of a peer that added a
  -- file and removed it loses the removal: the file is there, though it is gone at the peer.
  pub base_wins_revives :
      (author peer : Key) (path : FilePath) (link : Option Link)
      → (map_option (λ op. op.op_type) (resolve_path path (added_and_removed author path link))
          ≡ some OpType.remove)
        × (map_option
              (λ op. op.op_type)
              (resolve_path path
                (merge_with_resolver new (added_and_removed author path link) base_wins peer).0)
            ≡ some OpType.add)
  unfolding record_op resolve_path merge_with_resolver cmp_op_id base_wins get
  base_wins_revives author peer path link =
      (ground (arith, lex_refl path), ground (arith, lex_refl path))
