-- ===== src/Ord/Lex.antt =====
-- Lexicographic order: Rust's derived `Ord` of slices, strings (as bytes) and paths (as components).
use Prim.Native.Nat.Ordering.{lt, eq, gt}
use jax_fs.Prelude.{Ordering, ◌≡◌, refl, List, [], ◌∷◌, arith}
use jax_fs.Ord.Laws.{Ord}

module _ {ℓ} {A : Type ℓ} ⦃o : Ord A⦄ where
  unfoldable pub lex : List A → List A → Ordering
  lex [] [] = eq
  lex [] (y ∷ ys) = lt
  lex (x ∷ xs) [] = gt
  lex (x ∷ xs) (y ∷ ys) = elim (o.cmp x y) [ lt ↦ lt | eq ↦ lex xs ys | gt ↦ gt ]

  pub lex_refl : (xs : List A) → lex xs xs ≡ eq
  unfolding lex
  lex_refl [] = refl
  lex_refl (x ∷ xs) = ground (arith, o.cmp_refl x, lex_refl xs)

  pub lex-eq : (xs ys : List A) → lex xs ys ≡ eq → xs ≡ ys
  unfolding lex
  lex-eq [] [] h = refl
  lex-eq [] (y ∷ ys) h = cc
  lex-eq (x ∷ xs) [] h = cc
  lex-eq (x ∷ xs) (y ∷ ys) h = ground (arith, o.eq_of_cmp x y, lex-eq xs ys)

  pub lex-gt : (xs ys : List A) → lex xs ys ≡ gt → lex ys xs ≡ lt
  unfolding lex
  lex-gt [] [] h = cc
  lex-gt [] (y ∷ ys) h = cc
  lex-gt (x ∷ xs) [] h = refl
  lex-gt (x ∷ xs) (y ∷ ys) h =
      ground (arith, o.eq_of_cmp x y, o.lt_of_cmp_gt x y, lex-gt xs ys, o.cmp_refl x)

  pub lex-lt : (xs ys : List A) → lex xs ys ≡ lt → lex ys xs ≡ gt
  unfolding lex
  lex-lt [] [] h = cc
  lex-lt [] (y ∷ ys) h = refl
  lex-lt (x ∷ xs) [] h = cc
  lex-lt (x ∷ xs) (y ∷ ys) h =
      ground (arith, o.eq_of_cmp x y, o.gt_of_cmp_lt x y, lex-lt xs ys, o.cmp_refl x)

  pub lex_trans : (xs ys zs : List A) → lex xs ys ≡ lt → lex ys zs ≡ lt → lex xs zs ≡ lt
  unfolding lex
  lex_trans [] [] zs h k = cc
  lex_trans [] (y ∷ ys) [] h k = cc
  lex_trans [] (y ∷ ys) (z ∷ zs) h k = refl
  lex_trans (x ∷ xs) [] zs h k = cc
  lex_trans (x ∷ xs) (y ∷ ys) [] h k = cc
  lex_trans (x ∷ xs) (y ∷ ys) (z ∷ zs) h k =
      ground (arith, o.eq_of_cmp x y, o.eq_of_cmp y z, o.cmp_trans x y z, lex_trans xs ys zs)

  instance abbrev pub lex_ord : Ord (List A)
  lex_ord = record {
    cmp = lex;
    cmp_refl = lex_refl;
    eq_of_cmp = lex-eq;
    lt_of_cmp_gt = lex-gt;
    gt_of_cmp_lt = lex-lt;
    cmp_trans = lex_trans;
  }
