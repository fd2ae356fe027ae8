-- ===== src/Prelude/Lists.antt =====
-- Lists: length over the native numbers, filtering by a Boolean test, and a predicate on all items.
use Prim.Native.Nat.{ℕ, zero, suc, ◌+◌}
use mathlib.Core.Path.{◌≡◌, subst}
use mathlib.Core.Logic.{inl, inr}
use mathlib.Core.Bool.{Bool, true, false, ◌||◌}
use mathlib.Core.Option.{Option, none, some}
use mathlib.Core.List.{List, [], ◌∷◌, ◌++◌}
use native.Mathlib.Omega.{arith}
use jax_fs.Prelude.Tests.{if◌then◌else◌, Bool-cases}

module _ {ℓ} {A : Type ℓ} where
  abbrev pub length : List A → ℕ
  length [] = 0
  length (x ∷ xs) = suc (length xs)

  abbrev pub is_empty : List A → Bool
  is_empty [] = true
  is_empty (x ∷ xs) = false

  abbrev pub take : ℕ → List A → List A
  take zero xs = []
  take (suc n) [] = []
  take (suc n) (x ∷ xs) = x ∷ take n xs

  -- `Iterator::filter`, `any` and `find`.
  unfoldable pub filter : (A → Bool) → List A → List A
  filter p [] = []
  filter p (x ∷ xs) = let rest = filter p xs in if p x then x ∷ rest else rest

  unfoldable pub any : (A → Bool) → List A → Bool
  any p [] = false
  any p (x ∷ xs) = p x || any p xs

  unfoldable pub find : (A → Bool) → List A → Option A
  find p [] = none
  find p (x ∷ xs) = let rest = find p xs in if p x then some x else rest

  pub length-append : (xs ys : List A) → length (xs ++ ys) ≡ length xs + length ys
  length-append [] ys = omega arith
  length-append (x ∷ xs) ys = omega (arith, length-append xs ys)

  -- `P` holds of every item.
  abbrev pub All {μ} : (A → Type μ) → List A → Type μ
  All P [] = Unit
  All P (x ∷ xs) = P x × All P xs

  pub All-imp {μ ν} :
      {P : A → Type μ} {Q : A → Type ν}
      → ((x : A) → P x → Q x)
      → (xs : List A) → All P xs
      → All Q xs
  All-imp f [] h = tt
  All-imp f (x ∷ xs) h = (f x h.0, All-imp f xs h.1)

  pub All-All {μ} : {P : A → Type μ} → ((x : A) → P x) → (xs : List A) → All P xs
  All-All f [] = tt
  All-All f (x ∷ xs) = (f x, All-All f xs)

  pub All-append {μ} : (P : A → Type μ) (xs ys : List A) → All P xs → All P ys → All P (xs ++ ys)
  All-append P [] ys h k = k
  All-append P (x ∷ xs) ys h k = (h.0, All-append P xs ys h.1 k)

  -- What a search finds passes the test, and what holds of every item holds of it.
  pub find-eq_some : (p : A → Bool) (xs : List A) {x : A} → find p xs ≡ some x → p x ≡ true
  unfolding find
  find-eq_some p [] e = cc
  find-eq_some p (y ∷ ys) {x} e = ground (arith, find-eq_some p ys {x = x})

  pub All-find {μ} :
      (P : A → Type μ) (p : A → Bool) (xs : List A) {x : A} → All P xs → find p xs ≡ some x → P x
  unfolding find
  All-find P p [] h e = cc
  All-find P p (y ∷ ys) {x} h e = elim (Bool-cases (p y)) [
    | inl t ↦ subst P (let e' : y ≡ x = ground arith in e') h.0
    | inr f ↦ All-find P p ys h.1 (ground arith)
  ]
