-- ===== src/BucketLog/Valid.antt =====
-- The invariant of a bucket log, kept by the two writes of `append`.
use jax_fs.Prelude.{
  ℕ, suc, ◌≤◌, ◌≡◌, refl, ◌∙◌, ap, Bool, true, false, ◌&&◌, ◌||◌, Option, none, some, List, [], ◌∷◌,
  ◌++◌, arith, is_empty, Option-cases, if◌then◌else◌, Bool-cases, inl, inr,
}
use jax_fs.Ord.{Ord, u64_ord, ◌==◌, eq_of_==, ==_comm}
use jax_fs.BTreeMap.{get}
use jax_fs.FilePath.{Name}
use jax_fs.BucketLog.Memory.{Inner, heads, has, open_bucket, add_entry, contains}
use jax_fs.BucketLog.Observe.{
  heads-open_bucket, heads-add_entry, has-open_bucket, has-add_entry, max_of, max_heights-add_entry,
}

is_empty-snoc {ℓ} : {A : Type ℓ} (xs : List A) (x : A) → is_empty (xs ++ x ∷ []) ≡ false
is_empty-snoc [] x = refl
is_empty-snoc (y ∷ ys) x = refl

module _ {A : Type 0} ⦃o : Ord A⦄ where
  pub contains-snoc :
      (x y : A) (xs : List A) → contains x (xs ++ y ∷ []) ≡ (contains x xs || y == x)
  unfolding contains
  contains-snoc x y [] = ground arith
  contains-snoc x y (z ∷ zs) = ground (arith, contains-snoc x y zs)

  -- A list that may have one more item, under two tests.
  pub contains-push :
      (b : Bool) (x y : A) (xs : List A)
      → contains x (if b then xs ++ y ∷ [] else xs) ≡ (contains x xs || (b && y == x))
  contains-push true x y xs = contains-snoc x y xs
  contains-push false x y xs = ground arith

module _ {A : Type 0} ⦃o : Ord A⦄ where
  pub contains_nonempty : (x : A) (xs : List A) → contains x xs ≡ true → is_empty xs ≡ false
  unfolding contains
  contains_nonempty x [] h = cc
  contains_nonempty x (y ∷ ys) h = refl

le-max_of : (o : Option ℕ) (h : ℕ) → h ≤ max_of o h
le-max_of none h = omega arith
le-max_of (some m) h = ground arith

old-le-max_of : (o : Option ℕ) (m h : ℕ) → o ≡ some m → m ≤ max_of o h
old-le-max_of o m h e = ground arith

module _ {Uuid Link : Type 0} ⦃uo : Ord Uuid⦄ ⦃lo : Ord Link⦄ where
  pub record IsValid (s : Inner Uuid Link) : Type 0 where
    -- The recorded height of a bucket has a head.
    pub top : (i : Uuid) (m : ℕ) → get i s.max_heights ≡ some m → is_empty (heads i m s) ≡ false
    -- No entry stands above the recorded height.
    pub bounded :
        (i : Uuid) (h : ℕ)
        → is_empty (heads i h s) ≡ false
        → (m : ℕ) × (get i s.max_heights ≡ some m) × (h ≤ m)
    -- Below an entry there are entries, down to height 0.
    pub linked :
        (i : Uuid) (h : ℕ) → is_empty (heads i (suc h) s) ≡ false → is_empty (heads i h s) ≡ false
    -- The index holds a height for a link exactly where the link is an entry at the height.
    pub indexed : (i : Uuid) (l : Link) (h : ℕ) → contains h (has i l s) ≡ contains l (heads i h s)

  pub open_bucket-IsValid :
      (id : Uuid) (name : Name) (s : Inner Uuid Link) → IsValid s → IsValid (open_bucket id name s)
  open_bucket-IsValid id name s v = record {
    top = λ i m e. rw heads-open_bucket (v.top i m (unfold open_bucket in e));
    bounded = λ i h e. unfold open_bucket in v.bounded i h (rw heads-open_bucket at e);
    linked = λ i h e. rw heads-open_bucket (v.linked i h (rw heads-open_bucket at e));
    indexed = λ i l h. rw (heads-open_bucket, has-open_bucket) (v.indexed i l h);
  }

  module _ (id : Uuid) (current : Link) (height : ℕ) (published : Bool) (s : Inner Uuid Link)
      (v : IsValid s) where
    abbrev after : Inner Uuid Link
    after = add_entry id current height published s

    empty-after :
        (i : Uuid) (h : ℕ)
        → is_empty (heads i h after)
          ≡ (if i == id && h == height then false else is_empty (heads i h s))
    empty-after i h =
        ap is_empty (heads-add_entry id i h height current published s)
        ∙ by_test (i == id && h == height)
      where
        by_test :
            (b : Bool)
            → is_empty (if b then heads i h s ++ current ∷ [] else heads i h s)
              ≡ (if b then false else is_empty (heads i h s))
        by_test true = is_empty-snoc (heads i h s) current
        by_test false = refl

    max-after :
        (i : Uuid)
        → get i after.max_heights
          ≡ (if i == id then some (max_of (get id s.max_heights) height) else get i s.max_heights)
    max-after i = max_heights-add_entry id i height current published s

    top-after :
        (i : Uuid) (m : ℕ) → get i after.max_heights ≡ some m → is_empty (heads i m after) ≡ false
    top-after i m e = elim (Bool-cases (i == id)) [
      | inr f ↦ ground (arith, max-after i, empty-after i m, v.top i m)
      | inl t ↦
          let same : i ≡ id = eq_of_== i id t in
          elim (Option-cases (get id s.max_heights)) [
            | inl n ↦ ground (arith, max-after i, empty-after i m)
            | inr (old, n) ↦ ground (arith, max-after i, empty-after i m, v.top i old (rw same n))
          ]
    ]

    bounded-after :
        (i : Uuid) (h : ℕ)
        → is_empty (heads i h after) ≡ false
        → (m : ℕ) × (get i after.max_heights ≡ some m) × (h ≤ m)
    bounded-after i h e = elim (Bool-cases (i == id)) [
      | inr f ↦
          let (m, q, le) = v.bounded i h (ground (arith, empty-after i h)) in
          (m, ground (arith, max-after i), le)
      | inl t ↦ (
        max_of (get id s.max_heights) height,
        ground (arith, max-after i),
        elim (Bool-cases (h == height)) [
          | inl at ↦ rw (eq_of_== h height at) (le-max_of (get id s.max_heights) height)
          | inr off ↦
              let (m, q, le) = v.bounded i h (ground (arith, empty-after i h)) in
              let old = old-le-max_of (get id s.max_heights) m height (rw (← eq_of_== i id t) q) in
              omega arith
        ],
      )
    ]

    linked-after :
        ((h : ℕ) → height ≡ suc h → is_empty (heads id h s) ≡ false)
        → (i : Uuid) (h : ℕ) → is_empty (heads i (suc h) after) ≡ false
        → is_empty (heads i h after) ≡ false
    linked-after below i h e = elim (Bool-cases (i == id && suc h == height)) [
      | inl new ↦
          let t : (i == id) ≡ true = ground arith in
          let at : height ≡ suc h = ground arith in
          let old : is_empty (heads i h s) ≡ false = rw (eq_of_== i id t) (below h at) in
          ground (arith, empty-after i h)
      | inr old ↦ ground (arith, empty-after i (suc h), empty-after i h, v.linked i h)
    ]

    indexed-after :
        (i : Uuid) (l : Link) (h : ℕ) → contains h (has i l after) ≡ contains l (heads i h after)
    indexed-after i l h =
        rw
          (
            has-add_entry id i l current height published s,
            heads-add_entry id i h height current published s,
          )
          (ground (
            arith,
            contains-push (i == id && l == current) h height (has i l s),
            contains-push (i == id && h == height) l current (heads i h s),
            v.indexed i l h,
            ==_comm l current,
            ==_comm h height,
          ))

    -- A height is reached only from the height below it, or is 0.
    pub add_entry-IsValid :
        ((h : ℕ) → height ≡ suc h → is_empty (heads id h s) ≡ false) → IsValid after
    add_entry-IsValid below = record {
      top = top-after;
      bounded = bounded-after;
      linked = linked-after below;
      indexed = indexed-after;
    }
