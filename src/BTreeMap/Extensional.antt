-- ===== src/BTreeMap/Extensional.antt =====
-- Two sorted maps that read alike at every key are one map.
use jax_fs.Prelude.{◌≡◌, refl, none, some, [], ◌∷◌, arith, inl, inr}
use jax_fs.Ord.{Ord, ◌≺◌, cmp-cases}
use jax_fs.BTreeMap.Defs.{BTreeMap, get}
use jax_fs.BTreeMap.Sorted.{Above, IsSorted, Above-trans, get-Above}

module _ {ℓ κ} {K : Type ℓ} {V : Type κ} ⦃o : Ord K⦄ where
  get_nil : (k : K) → get {V = V} k [] ≡ none
  unfolding get
  get_nil k = refl

  get_head : (k : K) (v : V) (m : BTreeMap K V) → get k ((k, v) ∷ m) ≡ some v
  unfolding get
  get_head k v m = ground (arith, o.cmp_refl k)

  get_below : (k j : K) (w : V) (m : BTreeMap K V) → k ≺ j → Above j m → get k ((j, w) ∷ m) ≡ none
  unfolding get
  get_below k j w m h a = ground (arith, get-Above k m (Above-trans k j m h a))

  -- Agreement of two maps with one head key passes to their tails.
  tails_agree :
      (k j : K) (v w : V) (m n : BTreeMap K V)
      → k ≡ j
      → Above k m
      → Above j n
      → ((x : K) → get x ((k, v) ∷ m) ≡ get x ((j, w) ∷ n))
      → (x : K) → get x m ≡ get x n
  unfolding get
  tails_agree k j v w m n e a b h x =
      ground (
        arith,
        h x,
        o.eq_of_cmp x k,
        o.eq_of_cmp x j,
        get-Above k m a,
        get-Above j n b,
        o.cmp_refl k,
      )

  pub eq_of_get :
      (m n : BTreeMap K V) → IsSorted m → IsSorted n → ((k : K) → get k m ≡ get k n) → m ≡ n
  eq_of_get [] [] s t h = refl
  eq_of_get [] ((j, w) ∷ n) s t h = cc (h j, get_head j w n, get_nil j)
  eq_of_get ((k, v) ∷ m) [] s t h = cc (h k, get_head k v m, get_nil k)
  eq_of_get ((k, v) ∷ m) ((j, w) ∷ n) s t h = elim (cmp-cases k j) [
    | inl below ↦ cc (h k, get_head k v m, get_below k j w n below t.0)
    | inr (inl same) ↦
        let ek : k ≡ j = o.eq_of_cmp k j same in
        let ev : v ≡ w = ground (arith, h k, get_head k v m, get_head j w n) in
        let tails : m ≡ n = eq_of_get m n s.1 t.1 (tails_agree k j v w m n ek s.0 t.0 h) in cc
    | inr (inr above) ↦ cc (h j, get_head j w n, get_below j k v m (o.lt_of_cmp_gt k j above) s.0)
  ]
