-- ===== src/BTreeMap/Removal.antt =====
-- What a removal leaves: every other entry, in order.
use jax_fs.Prelude.{◌≡◌, none, [], ◌∷◌, arith, if◌then◌else◌}
use jax_fs.Ord.{Ord, ◌==◌}
use jax_fs.BTreeMap.Defs.{BTreeMap, get, remove}
use jax_fs.BTreeMap.Sorted.{IsSorted, Above, get-Above}

module _ {ℓ κ} {K : Type ℓ} {V : Type κ} ⦃o : Ord K⦄ where
  Above-remove : (j k : K) (m : BTreeMap K V) → Above j m → Above j (remove k m)
  unfolding remove
  Above-remove j k [] a = tt
  Above-remove j k ((i, w) ∷ m) a = ground (arith, a, Above-remove j k m a.1)

  pub remove-IsSorted : (k : K) (m : BTreeMap K V) → IsSorted m → IsSorted (remove k m)
  unfolding remove
  remove-IsSorted k [] s = tt
  remove-IsSorted k ((i, w) ∷ m) s =
      ground (arith, s, remove-IsSorted k m s.1, Above-remove i k m s.0)

  pub get-remove :
      (k j : K) (m : BTreeMap K V)
      → IsSorted m
      → get j (remove k m) ≡ (if j == k then none else get j m)
  unfolding get remove
  get-remove k j [] s = ground arith
  get-remove k j ((i, w) ∷ m) s = ground (
    arith,
    get-remove k j m s.1,
    o.eq_of_cmp k i,
    o.eq_of_cmp j i,
    o.eq_of_cmp j k,
    o.cmp_refl k,
    get-Above i m s.0,
  )
