-- ===== src/BTreeMap/Sorted.antt =====
-- The representation invariant: the keys ascend strictly, so no key occurs twice.
use jax_fs.Prelude.{◌≡◌, refl, none, some, [], ◌∙◌, ◌∷◌, arith, All, All-imp}
use jax_fs.Ord.{Ord, ◌≺◌}
use jax_fs.BTreeMap.Defs.{BTreeMap, get, insert}
use jax_fs.BTreeMap.Lookup.{All-insert}

module _ {ℓ κ} {K : Type ℓ} {V : Type κ} ⦃o : Ord K⦄ where
  -- Every key of the map comes after `k`.
  abbrev pub Above : K → BTreeMap K V → Type 0
  Above k m = All (λ e. k ≺ e.0) m

  abbrev pub IsSorted : BTreeMap K V → Type 0
  IsSorted [] = Unit
  IsSorted ((k, v) ∷ m) = Above k m × IsSorted m

  pub Above-trans : (j k : K) (m : BTreeMap K V) → j ≺ k → Above k m → Above j m
  Above-trans j k m h a = All-imp (λ e. o.cmp_trans j k e.0 h) m a

  pub get-Above : (k : K) (m : BTreeMap K V) → Above k m → get k m ≡ none
  unfolding get
  get-Above k [] a = refl
  get-Above k ((j, w) ∷ m) a = ground (arith, get-Above k m)

  pub insert-IsSorted : (k : K) (v : V) (m : BTreeMap K V) → IsSorted m → IsSorted (insert k v m)
  unfolding insert
  insert-IsSorted k v [] s = (tt, tt)
  insert-IsSorted k v ((j, w) ∷ m) s = ground (
    arith,
    insert-IsSorted k v m,
    All-insert (λ e. j ≺ e.0) k v m,
    o.lt_of_cmp_gt k j,
    o.eq_of_cmp k j,
    Above-trans k j m,
  )

  pub get_tail : (k j : K) (v : V) (m : BTreeMap K V) → k ≺ j → get j ((k, v) ∷ m) ≡ get j m
  unfolding get
  get_tail k j v m h = ground (arith, o.gt_of_cmp_lt k j)

  -- A fact about the entries that come after `k` may use that they do.
  pub All-imp-Above {μ ν} :
      {P : K × V → Type μ} {Q : K × V → Type ν} (k : K)
      → ((e : K × V) → k ≺ e.0 → P e → Q e)
      → (m : BTreeMap K V) → Above k m
      → All P m
      → All Q m
  All-imp-Above k f [] a h = tt
  All-imp-Above k f (e ∷ m) a h = (f e a.0 h.0, All-imp-Above k f m a.1 h.1)

  -- Every entry of a sorted map is what is read at its key.
  pub All-entry : (m : BTreeMap K V) → IsSorted m → All (λ e. get e.0 m ≡ some e.1) m
  All-entry [] s = tt
  All-entry ((k, v) ∷ m) s = (
    unfold get in ground (arith, o.cmp_refl k),
    All-imp-Above k (λ e h g. get_tail k e.0 v m h ∙ g) m s.0 (All-entry m s.1),
  )
