-- ===== src/PathOps/Valid.antt =====
-- The invariant of an operation log, kept by every method that changes one.
use jax_fs.Prelude.{
  ℕ, ◌+◌, ◌%◌, ◌≤◌, ◌<◌, ◌≡◌, refl, Bool, true, false, Option, none, some, arith, All, All-imp,
  Bool-cases, inl, inr, u64_mod,
}
use jax_fs.Ord.{Ord}
use jax_fs.BTreeMap.{BTreeMap, get, contains_key, All-insert, All-get}
use jax_fs.BTreeMap.Sorted.{IsSorted, insert-IsSorted}
use jax_fs.FilePath.{FilePath}
use jax_fs.PathOps.Op.{OpType, OpId, PathOperation, op_id_ord}
use jax_fs.PathOps.Log.{PathOpLog, put, advance_clock, record_op, merge_entry}

module _ {Key Link : Type 0} where
  -- Each operation stands under its own identifier.
  abbrev pub Keyed : BTreeMap (OpId Key) (PathOperation Key Link) → Type 0
  Keyed ops = All (λ e. e.1.id ≡ e.0) ops

  -- The clock has reached every timestamp of the log.
  abbrev pub Clocked : ℕ → BTreeMap (OpId Key) (PathOperation Key Link) → Type 0
  Clocked clock ops = All (λ e. e.0.timestamp ≤ clock) ops

  -- No timestamp is the last one of `u64`, so a clock can move past it.
  abbrev pub HasRoom : BTreeMap (OpId Key) (PathOperation Key Link) → Type 0
  HasRoom ops = All (λ e. e.0.timestamp + 1 < u64_mod) ops

  pub Clocked-mono :
      (c d : ℕ) (ops : BTreeMap (OpId Key) (PathOperation Key Link))
      → c ≤ d
      → Clocked c ops
      → Clocked d ops
  Clocked-mono c d ops h k = All-imp (λ e le. omega arith) ops k

module _ {Key Link : Type 0} ⦃o : Ord Key⦄ where
  pub record IsValid (log : PathOpLog Key Link) : Type 0 where
    pub sorted : IsSorted log.operations
    pub keyed : Keyed log.operations
    pub clocked : Clocked log.local_clock log.operations

  pub put-IsValid :
      (op : PathOperation Key Link) (log : PathOpLog Key Link)
      → IsValid log
      → op.id.timestamp ≤ log.local_clock
      → IsValid (put op.id op log)
  unfolding put
  put-IsValid op log v h = record {
    sorted = insert-IsSorted op.id op log.operations v.sorted;
    keyed = All-insert (λ e. e.1.id ≡ e.0) op.id op log.operations refl v.keyed;
    clocked = All-insert (λ e. e.0.timestamp ≤ log.local_clock) op.id op log.operations h v.clocked;
  }

  -- An identifier past the clock is not in the log.
  pub get_past_clock :
      (id : OpId Key) (log : PathOpLog Key Link)
      → IsValid log
      → log.local_clock < id.timestamp
      → get id log.operations ≡ none
  get_past_clock id log v h = absent (get id log.operations) refl
    where
      absent :
          (found : Option (PathOperation Key Link)) → get id log.operations ≡ found → found ≡ none
      absent none e = refl
      absent (some op) e = absurd (
          omega
            (arith, All-get (λ e. e.0.timestamp ≤ log.local_clock) id log.operations v.clocked e))

  -- A higher clock keeps the invariant.
  pub raise_clock-IsValid :
      (clock : ℕ) (log : PathOpLog Key Link)
      → IsValid log
      → log.local_clock ≤ clock
      → IsValid (record log { local_clock = clock })
  raise_clock-IsValid clock log v h = record {
    sorted = v.sorted;
    keyed = v.keyed;
    clocked = Clocked-mono log.local_clock clock log.operations h v.clocked;
  }

  module _ (peer_id : Key) (op_type : OpType) (path : FilePath) (link : Option Link) (is_dir : Bool)
      (log : PathOpLog Key Link) where
    -- `record` keeps the invariant while the clock has room below the last `u64`.
    pub record_op-IsValid :
        IsValid log
        → log.local_clock + 1 < u64_mod
        → IsValid (record_op peer_id op_type path link is_dir log).0
    unfolding record_op
    record_op-IsValid v room =
        let clock : ℕ = (log.local_clock + 1) % u64_mod in
        put-IsValid
          (record {
            id = record { timestamp = clock; peer_id = peer_id };
            op_type = op_type;
            path = path;
            content_link = link;
            is_dir = is_dir;
          })
          (record log { local_clock = clock }) (raise_clock-IsValid clock log v (omega arith))
          (omega arith)

  -- A clock that moves past an identifier covers it, and what was covered before.
  pub advance_clock_covers :
      (id : OpId Key) (log : PathOpLog Key Link)
      → id.timestamp + 1 < u64_mod
      → (log.local_clock ≤ (advance_clock id log).local_clock)
        × (id.timestamp ≤ (advance_clock id log).local_clock)
  unfolding advance_clock
  advance_clock_covers id log h = ground arith

  pub operations-advance_clock :
      (id : OpId Key) (log : PathOpLog Key Link)
      → (advance_clock id log).operations ≡ log.operations
  unfolding advance_clock
  operations-advance_clock id log = ground arith

  -- The two outcomes of a round of `merge`.
  pub merge_entry_old :
      (id : OpId Key) (op : PathOperation Key Link) (log : PathOpLog Key Link) (n : ℕ)
      → contains_key id log.operations ≡ true
      → merge_entry (id, op) (log, n) ≡ (log, n)
  unfolding merge_entry
  merge_entry_old id op log n h = rw h

  pub merge_entry_new :
      (id : OpId Key) (op : PathOperation Key Link) (log : PathOpLog Key Link) (n : ℕ)
      → contains_key id log.operations ≡ false
      → merge_entry (id, op) (log, n) ≡ (advance_clock id (put id op log), n + 1)
  unfolding merge_entry
  merge_entry_new id op log n h = rw h

  -- A property that the addition of a new operation keeps is kept by a round of `merge`.
  pub merge_entry_keeps {μ} :
      (P : PathOpLog Key Link × ℕ → Type μ) (e : OpId Key × PathOperation Key Link)
      (log : PathOpLog Key Link) (n : ℕ)
      → P (log, n)
      → (contains_key e.0 log.operations ≡ false → P (advance_clock e.0 (put e.0 e.1 log), n + 1))
      → P (merge_entry e (log, n))
  merge_entry_keeps P (id, op) log n old fresh =
      elim (Bool-cases (contains_key id log.operations)) [
        | inl t ↦ rw (merge_entry_old id op log n t) old
        | inr f ↦ rw (merge_entry_new id op log n f) (fresh f)
      ]

  -- The clock and the table are moved independently.
  pub put-advance_clock :
      (id : OpId Key) (op : PathOperation Key Link) (log : PathOpLog Key Link)
      → put id op (advance_clock id log) ≡ advance_clock id (put id op log)
  unfolding put advance_clock
  put-advance_clock id op log = ground arith
