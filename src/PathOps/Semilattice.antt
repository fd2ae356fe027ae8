-- ===== src/PathOps/Semilattice.antt =====
-- `merge` joins logs as sets of operations: the order and the number of merges do not matter.
use jax_fs.Prelude.{
  ℕ, ◌+◌, ◌≡◌, refl, true, Option, none, some, [], ◌∷◌, arith, or_else, All, All-imp, length,
  if◌then◌else◌,
}
use jax_fs.Ord.{Ord, ◌==◌}
use jax_fs.BTreeMap.{BTreeMap, get, contains_key, get-insert, length-insert}
use jax_fs.BTreeMap.Sorted.{IsSorted, insert-IsSorted, All-entry}
use jax_fs.BTreeMap.Extensional.{eq_of_get}
use jax_fs.PathOps.Op.{OpId, PathOperation, op_id_ord, cmp_op_id-eq}
use jax_fs.PathOps.Valid.{operations-advance_clock, merge_entry_keeps, merge_entry_old}
use jax_fs.PathOps.Log.{PathOpLog, put, merge_entry, merge_entries, merge, len}

module _ {Key Link : Type 0} ⦃o : Ord Key⦄ where
  get-merge_entry :
      (k id : OpId Key) (op : PathOperation Key Link) (log : PathOpLog Key Link) (n : ℕ)
      → get k (merge_entry (id, op) (log, n)).0.operations
        ≡ or_else (get k log.operations) (if k == id then some op else none)
  unfolding merge_entry
  get-merge_entry k id op log n = ground (
    arith,
    operations-advance_clock id (put id op log),
    get-insert id k op log.operations,
    cmp_op_id-eq k id,
  )

  get-merge_entries :
      (k : OpId Key) (es : BTreeMap (OpId Key) (PathOperation Key Link)) (log : PathOpLog Key Link)
      (n : ℕ)
      → get k (merge_entries es (log, n)).0.operations ≡ or_else (get k log.operations) (get k es)
  unfolding merge_entries get
  get-merge_entries k [] log n = ground arith
  get-merge_entries k ((id, op) ∷ es) log n =
      let (log', n') = merge_entry (id, op) (log, n) in
      ground (arith, get-merge_entries k es log' n', get-merge_entry k id op log n)

  merge_entry-IsSorted :
      (e : OpId Key × PathOperation Key Link) (log : PathOpLog Key Link) (n : ℕ)
      → IsSorted log.operations
      → IsSorted (merge_entry e (log, n)).0.operations
  merge_entry-IsSorted (id, op) log n s =
      merge_entry_keeps (λ r. IsSorted r.0.operations) (id, op) log n s
        λ new. rw operations-advance_clock (unfold put in insert-IsSorted id op log.operations s)

  merge_entries-IsSorted :
      (es : BTreeMap (OpId Key) (PathOperation Key Link)) (log : PathOpLog Key Link) (n : ℕ)
      → IsSorted log.operations
      → IsSorted (merge_entries es (log, n)).0.operations
  unfolding merge_entries
  merge_entries-IsSorted [] log n s = s
  merge_entries-IsSorted (e ∷ es) log n s =
      let (log', n') = merge_entry e (log, n) in
      merge_entries-IsSorted es log' n' (merge_entry-IsSorted e log n s)

  -- The merged log holds each operation of either log; under a common identifier its own.
  pub get-merge :
      (k : OpId Key) (a b : PathOpLog Key Link)
      → get k (merge a b).0.operations ≡ or_else (get k a.operations) (get k b.operations)
  unfolding merge
  get-merge k a b = get-merge_entries k b.operations a 0

  merge-IsSorted :
      (a b : PathOpLog Key Link) → IsSorted a.operations → IsSorted (merge a b).0.operations
  unfolding merge
  merge-IsSorted a b s = merge_entries-IsSorted b.operations a 0 s

  -- An identifier names one operation: whatever both logs hold under it is the same.
  abbrev pub Agree : PathOpLog Key Link → PathOpLog Key Link → Type 0
  Agree a b =
      (k : OpId Key) (v w : PathOperation Key Link)
      → get k a.operations ≡ some v
      → get k b.operations ≡ some w
      → v ≡ w

  -- Merging two logs with ordered tables, which agree on the identifiers they share, gives the same
  -- operations in either order.
  pub merge_comm :
      (a b : PathOpLog Key Link)
      → IsSorted a.operations
      → IsSorted b.operations
      → Agree a b
      → (merge a b).0.operations ≡ (merge b a).0.operations
  merge_comm a b s t agree =
      eq_of_get _ _ (merge-IsSorted a b s) (merge-IsSorted b a t) λ k. either k _ _ refl refl
    where
      either :
          (k : OpId Key) (v w : Option (PathOperation Key Link))
          → get k a.operations ≡ v
          → get k b.operations ≡ w
          → get k (merge a b).0.operations ≡ get k (merge b a).0.operations
      either k none w e f = ground (arith, get-merge k a b, get-merge k b a)
      either k (some v) none e f = ground (arith, get-merge k a b, get-merge k b a)
      either k (some v) (some w) e f = ground (arith, get-merge k a b, get-merge k b a, agree k v w)

  -- Merging three logs, of which the first has an ordered table, gives the same operations whichever
  -- two are merged first.
  pub merge_assoc :
      (a b c : PathOpLog Key Link)
      → IsSorted a.operations
      → (merge (merge a b).0 c).0.operations ≡ (merge a (merge b c).0).0.operations
  merge_assoc a b c s =
      eq_of_get _ _ (merge-IsSorted _ c (merge-IsSorted a b s)) (merge-IsSorted a _ s) λ k. ground (
        arith,
        get-merge k (merge a b).0 c,
        get-merge k a b,
        get-merge k a (merge b c).0,
        get-merge k b c,
      )

  merge_entries_absorbs :
      (es : BTreeMap (OpId Key) (PathOperation Key Link)) (log : PathOpLog Key Link) (n : ℕ)
      → All (λ e. contains_key e.0 log.operations ≡ true) es
      → merge_entries es (log, n) ≡ (log, n)
  unfolding merge_entries
  merge_entries_absorbs [] log n h = refl
  merge_entries_absorbs ((id, op) ∷ es) log n h =
      rw (merge_entry_old id op log n h.0) (merge_entries_absorbs es log n h.1)

  -- Merging a log with an ordered table into itself changes nothing, the clock included, and adds no
  -- operation.
  pub merge_idem : (a : PathOpLog Key Link) → IsSorted a.operations → merge a a ≡ (a, 0)
  unfolding merge
  merge_idem a s =
      merge_entries_absorbs a.operations a 0
        (All-imp (λ e h. unfold contains_key in rw h) a.operations (All-entry a.operations s))

  -- Merging a log with an ordered table a second time changes nothing and adds no operation.
  pub merge_again :
      (a b : PathOpLog Key Link)
      → IsSorted b.operations
      → merge (merge a b).0 b ≡ ((merge a b).0, 0)
  merge_again a b t =
      unfold merge in
      merge_entries_absorbs b.operations (merge a b).0 0
        (All-imp (λ e h. held e.0 e.1 h) b.operations (All-entry b.operations t))
    where
      held :
          (k : OpId Key) (v : PathOperation Key Link)
          → get k b.operations ≡ some v
          → contains_key k (merge a b).0.operations ≡ true
      held k v h = unfold contains_key in ground (arith, get-merge k a b)

  len-merge_entry :
      (e : OpId Key × PathOperation Key Link) (log : PathOpLog Key Link) (n : ℕ)
      → len (merge_entry e (log, n)).0 + n ≡ len log + (merge_entry e (log, n)).1
  unfolding len
  len-merge_entry (id, op) log n =
      merge_entry_keeps (λ r. length r.0.operations + n ≡ length log.operations + r.1) (id, op) log
        n refl
        λ new.
          rw operations-advance_clock
            (unfold put contains_key in ground (arith, length-insert id op log.operations))

  len-merge_entries :
      (es : BTreeMap (OpId Key) (PathOperation Key Link)) (log : PathOpLog Key Link) (n : ℕ)
      → len (merge_entries es (log, n)).0 + n ≡ len log + (merge_entries es (log, n)).1
  unfolding merge_entries
  len-merge_entries [] log n = refl
  len-merge_entries (e ∷ es) log n =
      let (log', n') = merge_entry e (log, n) in
      omega (arith, len-merge_entry e log n, len-merge_entries es log' n')

  -- The returned number is how much the log has grown.
  pub len-merge : (a b : PathOpLog Key Link) → len (merge a b).0 ≡ len a + (merge a b).1
  unfolding merge
  len-merge a b = omega (arith, len-merge_entries b.operations a 0)
