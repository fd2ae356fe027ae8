-- ===== src/Tests/Buckets.antt =====
-- The bucket log on small inputs: the bucket 5 with the links 1, 2 and 3, of which 2 and 3 follow 1.
use jax_fs.Prelude.{
  ℕ, ◌≡◌, ◌≢◌, ◌↔◌, refl, Bool, true, false, Option, none, some, List, [], ◌∷◌, inl,
}
use jax_fs.Prelude.Results.{Result, ok, err}
use jax_fs.Ord.{u64_ord}
use jax_fs.BTreeMap.{BTreeMap, get, insert}
use jax_fs.BucketLog.Memory.{
  Inner, BucketLogError, heads, head, exists, append, empty_log, latest_published, list_buckets,
  finish_append, check_append, open_bucket, add_entry,
}
use jax_fs.BucketLog.Valid.{IsValid}
use jax_fs.BucketLog.Append.{Admissible, append_accepts_iff, append-IsValid}
use jax_fs.BucketLog.Head.{Request, run, run-IsValid, refused_bucket_exists}

abbrev request : ℕ → Option ℕ → ℕ → Bool → Request ℕ ℕ
request current previous at published = record {
  bucket = 5;
  name = [];
  current = current;
  previous = previous;
  at = at;
  published = published;
}

-- The last request is refused: 9 is no link of the log.
abbrev requests : List (Request ℕ ℕ)
requests =
    request 1 none 0 true
    ∷ request 2 (some 1) 1 true
    ∷ request 3 (some 1) 1 false
    ∷ request 4 (some 9) 2 true
    ∷ []

abbrev forked : Inner ℕ ℕ
forked = run 0 requests empty_log

test_forked : heads 5 1 forked ≡ 2 ∷ 3 ∷ []
unfolding heads run append get insert finish_append check_append open_bucket add_entry
test_forked = refl

test_list_buckets : list_buckets forked ≡ 5 ∷ []
unfolding list_buckets run append get insert finish_append check_append open_bucket add_entry
test_list_buckets = refl

test_latest_published : latest_published 5 forked ≡ some (2, 1)
unfolding latest_published run append get insert finish_append check_append open_bucket add_entry
test_latest_published = refl

append_accepts_iff_example :
    (append 0 5 [] 4 (some 3) 2 true forked).1 ≡ ok tt ↔ Admissible 5 4 (some 3) 2 forked
append_accepts_iff_example = append_accepts_iff 0 5 [] 4 (some 3) 2 true forked

append-IsValid_example : IsValid (append 0 5 [] 4 (some 3) 2 true forked).0
append-IsValid_example = append-IsValid 0 5 [] 4 (some 3) 2 true forked (run-IsValid 0 requests)

abbrev nothing : Inner ℕ ℕ
nothing = empty_log

-- A first entry of height 0, with a previous link.
abbrev refused : Inner ℕ ℕ × Result (BucketLogError ℕ) (Unit {0})
refused = append 0 5 [] 4 (some 3) 0 true nothing

refused_bucket_exists_example :
    (refused.1 ≢ ok tt)
    × (exists 5 nothing ≡ false)
    × (exists 5 refused.0 ≡ true)
    × (head 5 none refused.0 ≡ err (BucketLogError.head_not_found 0))
refused_bucket_exists_example =
    refused_bucket_exists 0 5 [] 4 (some 3) 0 true nothing (unfold get in refl) (unfold get in refl)
      (inl (λ e. cc))

abbrev statuses : BTreeMap ℕ Bool
statuses = (1, true) ∷ (2, true) ∷ (3, false) ∷ []

abbrev heights : BTreeMap ℕ (List ℕ)
heights = (0, 1 ∷ []) ∷ (1, 2 ∷ 3 ∷ []) ∷ []
