-- ===== src/BucketLog/Head.antt =====
-- The canonical head of a bucket, and logs built by any calls of `append`.
use jax_fs.Prelude.{
  ℕ, ◌≡◌, refl, ap, ◌≢◌, Bool, true, false, Option, none, some, Option-cases, List, [], ◌∷◌, arith,
  All, All-imp, is_empty, unwrap_or, ◌≤◌, ◌⊎◌, inl, inr,
}
use jax_fs.Prelude.Results.{ok, err}
use jax_fs.Ord.{Ord, u64_ord, gtb}
use jax_fs.Ord.Max.{max_by_key, max_from, All-max_from, max_from_upper}
use jax_fs.BTreeMap.{get, get-insert_self}
use jax_fs.FilePath.{Name}
use jax_fs.BucketLog.Memory.{
  Inner, BucketLogError, heads, has, height, head, open_bucket, contains, append, empty_log, exists,
  check_append,
}
use jax_fs.BucketLog.Valid.{IsValid}
use jax_fs.BucketLog.Append.{append-IsValid, append_refused, verdict}

module _ {A : Type 0} ⦃o : Ord A⦄ where
  -- Every item of a list is contained in it.
  pub contains-All : (xs : List A) → All (λ x. contains x xs ≡ true) xs
  unfolding contains
  contains-All [] = tt
  contains-All (x ∷ xs) =
      (ground (arith, o.cmp_refl x), All-imp (λ y h. ground arith) xs (contains-All xs))

  -- `max` of a list with an item is an item, and no item is greater.
  max_of_nonempty :
      (xs : List A)
      → is_empty xs ≡ false
      → (m : A) × (max_by_key (λ x. x) xs ≡ some m)
        × (contains m xs ≡ true)
        × All (λ x. gtb x m ≡ false) xs
  unfolding max_by_key
  max_of_nonempty [] h = cc
  max_of_nonempty (x ∷ xs) h =
      let all = contains-All (x ∷ xs) in
      (
        max_from (λ y. y) x xs,
        refl,
        All-max_from (λ y. contains y (x ∷ xs) ≡ true) (λ y. y) x xs all.0 all.1,
        max_from_upper (λ y. y) x xs,
      )

-- A request to append, as a caller makes it.
pub record Request (Uuid Link : Type 0) : Type 0 where
  pub bucket : Uuid
  pub name : Name
  pub current : Link
  pub previous : Option Link
  pub at : ℕ
  pub published : Bool

module _ {Uuid Link : Type 0} ⦃uo : Ord Uuid⦄ ⦃lo : Ord Link⦄ where
  -- Where a bucket of a valid log has a height, it has a canonical head: the greatest of the links at that height,
  -- which is the greatest height with an entry.
  pub head_canonical :
      (id : Uuid) (m : ℕ) (s : Inner Uuid Link)
      → IsValid s
      → height id s ≡ ok m
      → (link : Link) × (head id none s ≡ ok (link, m))
        × (contains link (heads id m s) ≡ true)
        × All (λ x. gtb x link ≡ false) (heads id m s)
        × ((h : ℕ) → is_empty (heads id h s) ≡ false → h ≤ m)
  head_canonical id m s v e =
      let top : get id s.max_heights ≡ some m = unfold height in ground arith in
      let (link, greatest, inside, upper) = max_of_nonempty (heads id m s) (v.top id m top) in
      (
        link,
        unfold head in rw (e, greatest),
        inside,
        upper,
        λ h ne.
            let (m', q, le) = v.bounded id h ne in let same : m' ≡ m = ground arith in omega arith,
      )

  unfoldable pub run : Link → List (Request Uuid Link) → Inner Uuid Link → Inner Uuid Link
  run default_link [] s = s
  run default_link (r ∷ rs) s =
      run default_link rs
        (append default_link r.bucket r.name r.current r.previous r.at r.published s).0

  IsValid-run :
      (default_link : Link) (rs : List (Request Uuid Link)) (s : Inner Uuid Link)
      → IsValid s
      → IsValid (run default_link rs s)
  unfolding run
  IsValid-run default_link [] s v = v
  IsValid-run default_link (r ∷ rs) s v =
      IsValid-run default_link rs _
        (append-IsValid default_link r.bucket r.name r.current r.previous r.at r.published s v)

  empty_log-IsValid : IsValid {Uuid = Uuid} {Link = Link} empty_log
  unfolding heads has get contains
  empty_log-IsValid = record {
    top = λ i m e. cc;
    bounded = λ i h e. absurd (ground arith);
    linked = λ i h e. cc;
    indexed = λ i l h. refl;
  }

  -- Whatever is appended to an empty log, accepted or not, the log keeps its invariant: the index
  -- and the heights agree with the entries, and every entry has entries below it down to height 0.
  pub run-IsValid :
      (default_link : Link) (rs : List (Request Uuid Link))
      → IsValid (run default_link rs empty_log)
  run-IsValid default_link rs = IsValid-run default_link rs empty_log empty_log-IsValid

  -- An entry that is no genesis (it has a previous link, or a height above 0) does not begin a bucket.
  begins_no_bucket :
      (default_link : Link) (id : Uuid) (name : Name) (current : Link) (previous : Option Link)
      (height' : ℕ) (s : Inner Uuid Link)
      → get id s.entries ≡ none
      → get id s.max_heights ≡ none
      → (previous ≢ none) ⊎ (height' ≢ 0)
      → (why : BucketLogError Link) × (verdict default_link id name height' s current previous
          ≡ some why)
  begins_no_bucket default_link id name current none height' s e m first = (
    BucketLogError.invalid_append current default_link height',
    unfold check_append contains get in
        elim first [ inl linked ↦ absurd (linked refl) | inr above ↦ ground arith ],
  )
  begins_no_bucket default_link id name current (some prev) height' s e m first =
      elim (Option-cases (verdict default_link id name height' s current (some prev))) [
        | inl free ↦ absurd (unfold check_append contains get in ground (arith, free))
        | inr refusal ↦ refusal
      ]

  -- An entry that is no genesis (it has a previous link, or a height above 0), for a bucket that has
  -- neither entries nor a height, is refused, and yet the bucket exists afterwards, which it did
  -- not, and has no height: asking for its head fails.
  pub refused_bucket_exists :
      (default_link : Link) (id : Uuid) (name : Name) (current : Link) (previous : Option Link)
      (height' : ℕ) (published : Bool) (s : Inner Uuid Link)
      → get id s.entries ≡ none
      → get id s.max_heights ≡ none
      → (previous ≢ none) ⊎ (height' ≢ 0)
      → let s' = append default_link id name current previous height' published s in
        (s'.1 ≢ ok tt)
        × (exists id s ≡ false)
        × (exists id s'.0 ≡ true)
        × (head id none s'.0 ≡ err (BucketLogError.head_not_found 0))
  refused_bucket_exists default_link id name current previous height' published s e m first =
      let (why, refused) =
        begins_no_bucket default_link id name current previous height' s e m first in
      let step =
        append_refused default_link id name height' s current previous published why refused in
      (
        λ q. cc (ap (λ y. y.1) step, q),
        unfold exists in rw e,
        rw step (
            unfold exists open_bucket in
            rw (get-insert_self id (unwrap_or (get id s.entries) []) s.entries)),
        rw step (unfold head height open_bucket in rw m),
      )
