-- ===== src/BTreeMap/Lookup.antt =====
-- What is read after an insertion, and the size of the map.
use Prim.Native.Nat.Ordering.{gt}
use jax_fs.Prelude.{
  ◌+◌, ◌≡◌, true, false, refl, none, some, [], ◌∷◌, arith, length, All, if◌then◌else◌, Bool-cases,
  subst, inl, inr,
}
use jax_fs.Ord.{Ord, ◌==◌, ◌≺◌}
use jax_fs.BTreeMap.Defs.{BTreeMap, get, insert, contains_key}

module _ {ℓ κ} {K : Type ℓ} {V : Type κ} ⦃o : Ord K⦄ where
  pub get-cons :
      (k j : K) (v : V) (m : BTreeMap K V)
      → get k ((j, v) ∷ m) ≡ (if k == j then some v else get k m)
  unfolding get
  get-cons k j v m = ground arith

  pub get-insert :
      (k j : K) (v : V) (m : BTreeMap K V)
      → get j (insert k v m) ≡ (if j == k then some v else get j m)
  unfolding get insert
  get-insert k j v [] = ground arith
  get-insert k j v ((i, w) ∷ m) =
      ground
        (arith, get-insert k j v m, o.eq_of_cmp j k, o.eq_of_cmp k i, o.cmp_refl j, o.cmp_refl k)

  pub get-insert_self : (k : K) (v : V) (m : BTreeMap K V) → get k (insert k v m) ≡ some v
  get-insert_self k v m = ground (arith, get-insert k k v m, o.cmp_refl k)

  -- A new key makes the map longer by one; an old key keeps its length.
  pub length-insert :
      (k : K) (v : V) (m : BTreeMap K V) → get k m ≡ none → length (insert k v m) ≡ length m + 1
  unfolding get insert
  length-insert k v [] h = refl
  length-insert k v ((j, w) ∷ m) h = ground (arith, length-insert k v m)

  -- What holds of every entry and of the new one holds of every entry afterwards.
  pub All-insert {μ} :
      (P : K × V → Type μ) (k : K) (v : V) (m : BTreeMap K V)
      → P (k, v)
      → All P m
      → All P (insert k v m)
  unfolding insert
  All-insert P k v [] p h = (p, tt)
  All-insert P k v ((j, w) ∷ m) p h = ground (arith, All-insert P k v m)

  pub All-get {μ} :
      (P : K × V → Type μ) (k : K) {v : V} (m : BTreeMap K V)
      → All P m
      → get k m ≡ some v
      → P (k, v)
  unfolding get
  All-get P k [] h e = cc
  All-get P k {v} ((j, w) ∷ m) h e = elim (Bool-cases (k == j)) [
    | inl t ↦ subst P (let e' : (j, w) ≡ (k, v) = ground (arith, o.eq_of_cmp k j) in e') h.0
    | inr f ↦ All-get P k m h.1 (ground arith)
  ]

  pub get_of_absent : (k : K) (m : BTreeMap K V) → contains_key k m ≡ false → get k m ≡ none
  unfolding contains_key
  get_of_absent k m h = ground arith

  pub get_of_present :
      (k : K) (m : BTreeMap K V) → contains_key k m ≡ true → (v : V) × (get k m ≡ some v)
  unfolding contains_key
  get_of_present k m h = ground arith

  -- Where an insertion puts its entry.
  pub insert_before :
      (k j : K) (v w : V) (m : BTreeMap K V) → k ≺ j → insert k v ((j, w) ∷ m) ≡ (k, v) ∷ (j, w) ∷ m
  unfolding insert
  insert_before k j v w m h = rw (h, insert)

  pub insert_after :
      (k j : K) (v w : V) (m : BTreeMap K V)
      → o.cmp k j ≡ gt
      → insert k v ((j, w) ∷ m) ≡ (j, w) ∷ insert k v m
  unfolding insert
  insert_after k j v w m h = rw (h, insert)
