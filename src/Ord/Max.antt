-- ===== src/Ord/Max.antt =====
-- `Iterator::max_by_key` and `Iterator::max`: of several greatest items the last one is returned.
use Prim.Native.Nat.Ordering.{gt}
use jax_fs.Prelude.{◌≡◌, true, false, Option, none, some, List, [], ◌∷◌, arith, All, unwrap_or}
use jax_fs.Ord.Laws.{Ord, gtb, ◌≺◌}

module _ {ℓ} {K : Type ℓ} ⦃o : Ord K⦄ where
  pub gtb_trans : (a b c : K) → gtb a b ≡ false → gtb b c ≡ false → gtb a c ≡ false
  gtb_trans a b c h k =
      ground (arith, o.eq_of_cmp a b, o.eq_of_cmp b c, o.cmp_trans a b c, o.cmp_refl a)

  pub gtb_of_lt_le : (a b c : K) → a ≺ b → gtb b c ≡ false → gtb c a ≡ true
  gtb_of_lt_le a b c h k =
      ground (arith, o.eq_of_cmp b c, o.cmp_trans a b c, o.gt_of_cmp_lt a c, o.gt_of_cmp_lt a b)

module _ {ℓ κ} {A : Type ℓ} {K : Type κ} ⦃o : Ord K⦄ where
  later : (A → K) → A → A → A
  later f best x = elim (o.cmp (f best) (f x)) [ gt ↦ best | _ ↦ x ]

  unfoldable pub max_from : (A → K) → A → List A → A
  unfolding later
  max_from f best [] = best
  max_from f best (x ∷ xs) = max_from f (later f best x) xs

  unfoldable pub max_by_key : (A → K) → List A → Option A
  unfolding max_from
  max_by_key f [] = none
  max_by_key f (x ∷ xs) = some (max_from f x xs)

  -- A step to a greater item.
  pub max_from_less :
      (f : A → K) (best x : A) (xs : List A)
      → f best ≺ f x
      → max_from f best (x ∷ xs) ≡ max_from f x xs
  unfolding max_from
  max_from_less f best x xs h = rw (h, later)

  later_upper :
      (f : A → K) (a b : A)
      → (gtb (f a) (f (later f a b)) ≡ false) × (gtb (f b) (f (later f a b)) ≡ false)
  unfolding later
  later_upper f a b = ground (arith, o.cmp_refl (f a), o.cmp_refl (f b), o.lt_of_cmp_gt (f a) (f b))

  All-later {μ} : (P : A → Type μ) (f : A → K) (a b : A) → P a → P b → P (later f a b)
  unfolding later
  All-later P f a b p q = elim (o.cmp (f a) (f b)) as (λ c. P (elim c [ gt ↦ a | _ ↦ b ])) [
    | gt ↦ p
    | _ ↦ q
  ]

  -- The greatest item is one of the items.
  pub All-max_from {μ} :
      (P : A → Type μ) (f : A → K) (best : A) (xs : List A)
      → P best
      → All P xs
      → P (max_from f best xs)
  unfolding max_from
  All-max_from P f best [] p h = p
  All-max_from P f best (x ∷ xs) p h =
      All-max_from P f (later f best x) xs (All-later P f best x p h.0) h.1

  -- No item is greater than the result.
  pub max_from_upper :
      (f : A → K) (best : A) (xs : List A)
      → All (λ x. gtb (f x) (f (max_from f best xs)) ≡ false) (best ∷ xs)
  unfolding max_from
  max_from_upper f best [] = (ground (arith, o.cmp_refl (f best)), tt)
  max_from_upper f best (x ∷ xs) =
      let ih = max_from_upper f (later f best x) xs in
      let both = later_upper f best x in
      (gtb_trans {K = K} _ _ _ both.0 ih.0, (gtb_trans {K = K} _ _ _ both.1 ih.0, ih.1))

  pub max_by_key_upper :
      (f : A → K) (d : A) (xs : List A)
      → All (λ x. gtb (f x) (f (unwrap_or (max_by_key f xs) d)) ≡ false) xs
  unfolding max_by_key
  max_by_key_upper f d [] = tt
  max_by_key_upper f d (x ∷ xs) = max_from_upper f x xs
