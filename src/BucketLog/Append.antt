-- ===== src/BucketLog/Append.antt =====
-- `append`: which entries it lets in, what it changes, and what it leaves alone.
use jax_fs.Prelude.{
  ℕ, ◌≢◌, suc, ◌-◌, ◌<◌, ◌≡◌, refl, ap, Bool, true, false, Option, none, some, [], arith, is_empty,
  ◌↔◌, unwrap_or, Option-cases, inl, inr,
}
use jax_fs.Prelude.Results.{Result, ok, err}
use jax_fs.Ord.{==_of_ne, Ord, u64_ord}
use jax_fs.BTreeMap.{get, get-insert_self}
use jax_fs.FilePath.{Name}
use jax_fs.BucketLog.Memory.{
  Inner, BucketLogError, heads, has, open_bucket, add_entry, contains, check_append, append,
  finish_append,
}
use jax_fs.BucketLog.Observe.{has-add_entry, heads-open_bucket, has-open_bucket}
use jax_fs.BucketLog.Valid.{IsValid, open_bucket-IsValid, add_entry-IsValid, contains_nonempty}

module _ {Uuid Link : Type 0} ⦃uo : Ord Uuid⦄ ⦃lo : Ord Link⦄ where
  -- What an entry must be: new at its height, and either a genesis at height 0 or a child of an
  -- entry at the height below.
  abbrev pub Admissible : Uuid → Link → Option Link → ℕ → Inner Uuid Link → Type 0
  Admissible id current none height s =
      (contains current (heads id height s) ≡ false) × (height ≡ 0)
  Admissible id current (some prev) height s =
      (contains current (heads id height s) ≡ false)
      × (0 < height)
      × (contains prev (heads id (height - 1) s) ≡ true)

  -- An admissible entry above height 0 has an entry below it.
  Admissible-parent :
      (id : Uuid) (current : Link) (previous : Option Link) (height : ℕ) (s : Inner Uuid Link)
      → Admissible id current previous height s
      → (h : ℕ) → height ≡ suc h
      → is_empty (heads id h s) ≡ false
  Admissible-parent id current none height s a h e = absurd (omega arith)
  Admissible-parent id current (some prev) height s a h e =
      let below : height - 1 ≡ h = omega arith in
      contains_nonempty prev (heads id h s) (rw (← below) a.2)

  module _ (default_link : Link) (id : Uuid) (name : Name) (height : ℕ) (s : Inner Uuid Link) where
    -- The verdict of the checks, read off the heads before the call.
    abbrev pub verdict : Link → Option Link → Option (BucketLogError Link)
    verdict current previous =
        check_append default_link current previous height (unwrap_or (get id s.entries) [])

    bucket-open :
        unwrap_or (get id (open_bucket id name s).entries) [] ≡ unwrap_or (get id s.entries) []
    unfolding open_bucket
    bucket-open = rw (get-insert_self id (unwrap_or (get id s.entries) []) s.entries)

    module _ (current : Link) (previous : Option Link) (published : Bool) where
      pub append_refused :
          (e : BucketLogError Link)
          → verdict current previous ≡ some e
          → append default_link id name current previous height published s
            ≡ (open_bucket id name s, err e)
      unfolding append finish_append
      append_refused e h = rw (bucket-open, h)

      pub append_admitted :
          verdict current previous ≡ none
          → append default_link id name current previous height published s
            ≡ (add_entry id current height published (open_bucket id name s), ok tt)
      unfolding append finish_append
      append_admitted h = rw (bucket-open, h)

    verdict-Admissible :
        (current : Link) (previous : Option Link)
        → verdict current previous ≡ none
        → Admissible id current previous height s
    unfolding check_append heads
    verdict-Admissible current none h = ground arith
    verdict-Admissible current (some prev) h = ground arith

    Admissible-verdict :
        (current : Link) (previous : Option Link)
        → Admissible id current previous height s
        → verdict current previous ≡ none
    unfolding check_append heads
    Admissible-verdict current none h = ground arith
    Admissible-verdict current (some prev) h = ground arith

module _ {Uuid Link : Type 0} ⦃uo : Ord Uuid⦄ ⦃lo : Ord Link⦄ where
  module _ (default_link : Link) (id : Uuid) (name : Name) (current : Link) (previous : Option Link)
      (height : ℕ) (published : Bool) (s : Inner Uuid Link) where
    abbrev result : Inner Uuid Link × Result (BucketLogError Link) (Unit {0})
    result = append default_link id name current previous height published s

    -- `append` accepts an entry exactly when it is admissible: its link is new at its height, and it is
    -- either without a previous link at height 0, or above 0 with a previous link that is at the
    -- height below.
    pub append_accepts_iff :
        (append default_link id name current previous height published s).1 ≡ ok tt
        ↔ Admissible id current previous height s
    append_accepts_iff = (accepts, admits)
      where
        accepts : result.1 ≡ ok tt → Admissible id current previous height s
        accepts e = elim (Option-cases (verdict default_link id name height s current previous)) [
          | inl n ↦ verdict-Admissible default_link id name height s current previous n
          | inr (x, r) ↦ cc (
            ap (λ y. y.1)
                (append_refused default_link id name height s current previous published x r),
            e,
          )
        ]

        admits : Admissible id current previous height s → result.1 ≡ ok tt
        admits a =
            ap (λ y. y.1)
              (append_admitted default_link id name height s current previous published
                (Admissible-verdict default_link id name height s current previous a))

    -- A refused entry leaves every head, every index entry and every height as it was.
    pub append_err_unchanged :
        (e : BucketLogError Link)
        → (append default_link id name current previous height published s).1 ≡ err e
        → (i : Uuid) (h : ℕ) (l : Link)
        → (heads i h (append default_link id name current previous height published s).0
            ≡ heads i h s)
          × (has i l (append default_link id name current previous height published s).0
              ≡ has i l s)
          × ((append default_link id name current previous height published s).0.max_heights
              ≡ s.max_heights)
    append_err_unchanged e h i n l =
        elim (Option-cases (verdict default_link id name height s current previous)) [
          | inl a ↦ cc (
            ap (λ y. y.1)
                (append_admitted default_link id name height s current previous published a),
            h,
          )
          | inr (x, r) ↦
              rw (append_refused default_link id name height s current previous published x r) (
                heads-open_bucket id i n name s,
                has-open_bucket id i l name s,
                unfold open_bucket in refl,
              )
        ]

    -- `append` keeps the invariant, whether it accepts the entry or not.
    pub append-IsValid :
        IsValid s → IsValid (append default_link id name current previous height published s).0
    append-IsValid v =
        elim (Option-cases (verdict default_link id name height s current previous)) [
          | inl a ↦
              rw (append_admitted default_link id name height s current previous published a) (
                add_entry-IsValid id current height published (open_bucket id name s)
                  (open_bucket-IsValid id name s v)
                  λ h e. rw heads-open_bucket (
                    Admissible-parent id current previous height s
                      (verdict-Admissible default_link id name height s current previous a) h e))
          | inr (x, r) ↦
              rw (append_refused default_link id name height s current previous published x r)
                (open_bucket-IsValid id name s v)
        ]

    -- Whatever `append` does, the heights of every other link stay as they were.
    pub append-has_other :
        (i : Uuid) (l : Link)
        → l ≢ current
        → has i l (append default_link id name current previous height published s).0 ≡ has i l s
    append-has_other i l ne =
        elim (Option-cases (verdict default_link id name height s current previous)) [
          | inl a ↦
              rw (append_admitted default_link id name height s current previous published a) (
                ground (
                  arith,
                  has-add_entry id i l current height published (open_bucket id name s),
                  has-open_bucket id i l name s,
                  ==_of_ne l current ne,
                ))
          | inr (x, r) ↦
              rw (append_refused default_link id name height s current previous published x r)
                (has-open_bucket id i l name s)
        ]
