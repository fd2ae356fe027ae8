-- ===== src/Ord/Laws.antt =====
-- The interface and its consequences; `u64` as an instance.
use Prim.Native.Nat.{compare}
use Prim.Native.Nat.Ordering.{lt, eq, gt}
use jax_fs.Prelude.{
  ℕ, Ordering, ◌≡◌, ◌⊎◌, inl, inr, refl, Bool, true, false, arith, ◌≢◌, Bool-cases,
}

pub record Ord {ℓ} (K : Type ℓ) : Type ℓ where
  pub cmp : K → K → Ordering
  pub cmp_refl : (a : K) → cmp a a ≡ eq
  pub eq_of_cmp : (a b : K) → cmp a b ≡ eq → a ≡ b
  pub lt_of_cmp_gt : (a b : K) → cmp a b ≡ gt → cmp b a ≡ lt
  pub gt_of_cmp_lt : (a b : K) → cmp a b ≡ lt → cmp b a ≡ gt
  pub cmp_trans : (a b c : K) → cmp a b ≡ lt → cmp b c ≡ lt → cmp a c ≡ lt

module _ {ℓ} {K : Type ℓ} ⦃o : Ord K⦄ where
  infix 50 ◌≺◌ ◌==◌
  abbrev pub ◌≺◌ : K → K → Type 0
  a ≺ b = o.cmp a b ≡ lt

  -- `==` of a type whose `Eq` agrees with its `Ord`.
  abbrev pub ◌==◌ : K → K → Bool
  a == b = elim (o.cmp a b) [ eq ↦ true | _ ↦ false ]

  -- `a > b`.
  abbrev pub gtb : K → K → Bool
  gtb a b = elim (o.cmp a b) [ gt ↦ true | _ ↦ false ]

  pub ==_refl : (a : K) → (a == a) ≡ true
  ==_refl a = ground (arith, o.cmp_refl a)

  pub eq_of_== : (a b : K) → (a == b) ≡ true → a ≡ b
  eq_of_== a b h = ground (arith, o.eq_of_cmp a b)

  pub ==_comm : (a b : K) → (a == b) ≡ (b == a)
  ==_comm a b = ground (
    arith,
    o.eq_of_cmp a b,
    o.eq_of_cmp b a,
    o.lt_of_cmp_gt a b,
    o.gt_of_cmp_lt a b,
    o.cmp_refl a,
  )

  pub ==_of_ne : (a b : K) → a ≢ b → (a == b) ≡ false
  ==_of_ne a b h = elim (Bool-cases (a == b)) [ inl t ↦ absurd (h (eq_of_== a b t)) | inr f ↦ f ]

  pub ==_of_lt : (a b : K) → a ≺ b → (b == a) ≡ false
  ==_of_lt a b h = ground (arith, o.gt_of_cmp_lt a b)

  -- Exactly one of the three outcomes, as a case split that keeps the equation.
  pub cmp-cases : (a b : K) → (a ≺ b) ⊎ ((o.cmp a b ≡ eq) ⊎ (o.cmp a b ≡ gt))
  cmp-cases a b = by_ordering (o.cmp a b) refl
    where
      by_ordering :
          (c : Ordering) → o.cmp a b ≡ c → (o.cmp a b ≡ lt) ⊎ ((o.cmp a b ≡ eq) ⊎ (o.cmp a b ≡ gt))
      by_ordering lt e = inl e
      by_ordering eq e = inr (inl e)
      by_ordering gt e = inr (inr e)

pub compare_refl : (a : ℕ) → compare a a ≡ eq
compare_refl a = ground arith

pub compare-eq : (a b : ℕ) → compare a b ≡ eq → a ≡ b
compare-eq a b h = ground arith

pub compare-gt : (a b : ℕ) → compare a b ≡ gt → compare b a ≡ lt
compare-gt a b h = ground arith

pub compare-lt : (a b : ℕ) → compare a b ≡ lt → compare b a ≡ gt
compare-lt a b h = ground arith

pub compare_trans : (a b c : ℕ) → compare a b ≡ lt → compare b c ≡ lt → compare a c ≡ lt
compare_trans a b c h k = ground arith

instance abbrev pub u64_ord : Ord ℕ
u64_ord = record {
  cmp = compare;
  cmp_refl = compare_refl;
  eq_of_cmp = compare-eq;
  lt_of_cmp_gt = compare-gt;
  gt_of_cmp_lt = compare-lt;
  cmp_trans = compare_trans;
}
