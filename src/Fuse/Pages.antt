-- ===== src/Fuse/Pages.antt =====
-- The pages in which the kernel reads a directory.
use jax_fs.Prelude.{
  ℕ, zero, suc, ◌+◌, ◌≡◌, refl, sym, ◌∙◌, ap, subst, arith, Bool, List, [], ◌∷◌, ◌++◌, length,
  Bool-cases, inl, inr,
}
use mathlib.Core.List.{append-nil, append_assoc}
use jax_fs.Fuse.Attributes.{DirItem, from_offset, fill}

abbrev Page : Type 0
Page = List (DirItem × ℕ)

module _ (is_full : Page → DirItem × ℕ → Bool) where
  -- A page goes on with items from the front of those that are left.
  fill_prefix :
      (page items : Page)
      → (more : Page) × (rest : Page) × (items ≡ more ++ rest)
        × (fill is_full page items ≡ page ++ more)
  unfolding fill
  fill_prefix page [] = ([], [], refl, sym (append-nil page))
  fill_prefix page (item ∷ items) = elim (Bool-cases (is_full page item)) [
    | inl t ↦ ([], item ∷ items, refl, rw t (sym (append-nil page)))
    | inr f ↦
        let (more, rest, e, g) = fill_prefix (page ++ item ∷ []) items in
        (item ∷ more, rest, ap (λ r. item ∷ r) e, rw f (g ∙ append_assoc page (item ∷ []) more))
  ]

from_start-append :
    (i : ℕ) (items : List DirItem) (more rest : Page)
    → from_offset i 0 items ≡ more ++ rest
    → from_offset i (length more) items ≡ rest
unfolding from_offset
from_start-append i items [] rest h = h
from_start-append i [] (x ∷ more) rest h = cc
from_start-append i (item ∷ items) (x ∷ more) rest h =
    from_start-append (i + 1) items more rest (ground (arith, h))

-- Items from an offset, past some more of them, are those from the offset further on.
from_offset-append :
    (i k : ℕ) (items : List DirItem) (more rest : Page)
    → from_offset i k items ≡ more ++ rest
    → from_offset i (k + length more) items ≡ rest
unfolding from_offset
from_offset-append i zero items more rest h =
    let same : 0 + length more ≡ length more = omega arith in
    rw same (from_start-append i items more rest h)
from_offset-append i (suc k) [] [] rest h = h
from_offset-append i (suc k) [] (x ∷ more) rest h = cc
from_offset-append i (suc k) (item ∷ items) more rest h =
    let same : suc k + length more ≡ suc (k + length more) = omega arith in
    rw same (from_offset-append (i + 1) k items more rest h)

-- Each item of a page tells the offset that comes after it.
abbrev pub IsNumbered : ℕ → Page → Type 0
IsNumbered i [] = Unit
IsNumbered i ((item, next) ∷ page) = (next ≡ i + 1) × IsNumbered (i + 1) page

from_offset-IsNumbered :
    (i k : ℕ) (items : List DirItem) → IsNumbered (i + k) (from_offset i k items)
unfolding from_offset
from_offset-IsNumbered i k [] = tt
from_offset-IsNumbered i zero (item ∷ items) =
    let same : i + 0 ≡ i = omega arith in
    let next : i + 1 + 0 ≡ i + 1 = omega arith in
    let more = from_offset-IsNumbered (i + 1) zero items in
    rw same (refl, subst (λ j. IsNumbered j (from_offset (i + 1) 0 items)) next more)
from_offset-IsNumbered i (suc k) (item ∷ items) =
    let same : i + 1 + k ≡ i + suc k = omega arith in
    subst (λ j. IsNumbered j (from_offset (i + 1) k items)) same
      (from_offset-IsNumbered (i + 1) k items)

prefix-IsNumbered : (i : ℕ) (more rest : Page) → IsNumbered i (more ++ rest) → IsNumbered i more
prefix-IsNumbered i [] rest h = tt
prefix-IsNumbered i ((item, next) ∷ more) rest h = (h.0, prefix-IsNumbered (i + 1) more rest h.1)

-- A page of a directory that is read from an offset, wherever the reply is full: it is the front of
-- the items from that offset on, each numbered with the offset after it, and reading on from the
-- offset after the last one gives exactly the items that the page left out.
pub fill-from_offset :
    (is_full : Page → DirItem × ℕ → Bool) (offset : ℕ) (items : List DirItem)
    → (from_offset 0 offset items
        ≡ fill is_full [] (from_offset 0 offset items)
          ++ from_offset 0 (offset + length (fill is_full [] (from_offset 0 offset items))) items)
      × IsNumbered offset (fill is_full [] (from_offset 0 offset items))
fill-from_offset is_full offset items =
    let (more, rest, e, g) = fill_prefix is_full [] (from_offset 0 offset items) in
    let left = from_offset-append 0 offset items more rest e in
    let zero_offset : 0 + offset ≡ offset = omega arith in
    let all =
      subst (λ j. IsNumbered j (from_offset 0 offset items)) zero_offset
        (from_offset-IsNumbered 0 offset items) in
    let numbered = prefix-IsNumbered offset more rest (subst (IsNumbered offset) e all) in
    rw g (e ∙ ap (λ r. more ++ r) (sym left), numbered)
