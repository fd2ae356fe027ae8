-- ===== src/BucketLog/Memory.antt =====
-- crates/common/src/bucket_log/memory.rs and the provided method `head` of provider.rs. Bucket ids
-- and links are parameters with a total order; a `HashMap` is the same table as a `BTreeMap`, and
-- the order in which one is iterated is left open where the code iterates (`scan_heights`). The
-- lock around the tables never fails here.
use jax_fs.Prelude.{
  ℕ, ◌-◌, Bool, true, false, ◌&&◌, ◌||◌, Option, none, some, List, [], ◌∷◌, ◌++◌, unwrap_or, ltb,
  if◌then◌else◌,
}
use jax_fs.Prelude.Results.{Result, ok, err, ok_or, ◌>>=◌}
use jax_fs.Ord.{Ord, u64_ord, ◌==◌}
use jax_fs.Ord.Max.{max_by_key}
use jax_fs.BTreeMap.{BTreeMap, get, insert, contains_key, keys}
use jax_fs.FilePath.{Name}

pub data BucketLogError (Link : Type 0) : Type 0 where
  head_not_found : ℕ → BucketLogError Link
  conflict : BucketLogError Link
  invalid_append : Link → Link → ℕ → BucketLogError Link

pub record Inner (Uuid Link : Type 0) : Type 0 where
  pub entries : BTreeMap Uuid (BTreeMap ℕ (List Link))
  pub max_heights : BTreeMap Uuid ℕ
  pub link_index : BTreeMap Uuid (BTreeMap Link (List ℕ))
  pub names : BTreeMap Uuid Name
  pub published : BTreeMap Uuid (BTreeMap Link Bool)

-- `best.is_none() || *height > best.1`
abbrev pub improves : {Link : Type 0} → ℕ → Option (Link × ℕ) → Bool
improves h none = true
improves h (some (l, b)) = ltb b h

module _ {Uuid : Type 0} ⦃uo : Ord Uuid⦄ where
  -- `if current_max.is_none() || height > current_max.unwrap()`
  abbrev pub raise_max : Option ℕ → Uuid → ℕ → BTreeMap Uuid ℕ → BTreeMap Uuid ℕ
  raise_max none id h m = insert id h m
  raise_max (some top) id h m = if ltb top h then insert id h m else m

module _ {Link : Type 0} ⦃lo : Ord Link⦄ where
  -- `Vec::contains`
  unfoldable pub contains : Link → List Link → Bool
  contains link [] = false
  contains link (l ∷ ls) = l == link || contains link ls

  -- The checks of `append`, in their order; `none` lets the entry in.
  unfoldable pub check_append :
      Link → Link → Option Link → ℕ → BTreeMap ℕ (List Link) → Option (BucketLogError Link)
  unfolding contains
  check_append default_link current none height bucket =
      if contains current (unwrap_or (get height bucket) [])
      then some conflict
      else if height == 0
      then none
      else some (invalid_append current default_link height)
  check_append default_link current (some prev) height bucket =
      if contains current (unwrap_or (get height bucket) [])
      then some conflict
      else if height == 0
      then some (invalid_append current prev height)
      else if contains prev (unwrap_or (get (height - 1) bucket) [])
      then none
      else some (invalid_append current prev (height - 1))

  -- The inner loop of `latest_published`.
  unfoldable pub scan_links :
      BTreeMap Link Bool → ℕ → List Link → Option (Link × ℕ) → Option (Link × ℕ)
  scan_links published height [] best = best
  scan_links published height (link ∷ links) best = scan_links published height links (
      if unwrap_or (get link published) false && improves height best
      then some (link, height)
      else best)

  unfoldable pub scan_heights :
      BTreeMap Link Bool → List (ℕ × List Link) → Option (Link × ℕ) → Option (Link × ℕ)
  unfolding scan_links
  scan_heights published [] best = best
  scan_heights published ((height, links) ∷ rest) best =
      scan_heights published rest (scan_links published height links best)

  -- The two early returns of `latest_published`.
  unfoldable pub scan_tables :
      Option (BTreeMap Link Bool) → Option (BTreeMap ℕ (List Link)) → Option (Link × ℕ)
  unfolding scan_heights
  scan_tables none bucket = none
  scan_tables (some published) none = none
  scan_tables (some published) (some bucket) = scan_heights published bucket none

module _ {Uuid Link : Type 0} ⦃uo : Ord Uuid⦄ ⦃lo : Ord Link⦄ where
  abbrev pub empty_log : Inner Uuid Link
  empty_log = record { entries = []; max_heights = []; link_index = []; names = []; published = [] }

  unfoldable pub exists : Uuid → Inner Uuid Link → Bool
  unfolding contains_key
  exists id s = contains_key id s.entries

  unfoldable pub heads : Uuid → ℕ → Inner Uuid Link → List Link
  heads id height s = unwrap_or (get height (unwrap_or (get id s.entries) [])) []

  unfoldable pub height : Uuid → Inner Uuid Link → Result (BucketLogError Link) ℕ
  height id s = ok_or (get id s.max_heights) (head_not_found 0)

  unfoldable pub has : Uuid → Link → Inner Uuid Link → List ℕ
  has id link s = unwrap_or (get link (unwrap_or (get id s.link_index) [])) []

  unfoldable pub list_buckets : Inner Uuid Link → List Uuid
  unfolding keys
  list_buckets s = keys s.entries

  -- What `append` writes before it checks anything: the name, and an empty table for a new bucket.
  unfoldable pub open_bucket : Uuid → Name → Inner Uuid Link → Inner Uuid Link
  open_bucket id name s = record s {
    names = insert id name s.names;
    entries = insert id (unwrap_or (get id s.entries) []) s.entries;
  }

  -- What `append` writes once the entry is let in.
  unfoldable pub add_entry : Uuid → Link → ℕ → Bool → Inner Uuid Link → Inner Uuid Link
  add_entry id current height published s =
      let bucket = unwrap_or (get id s.entries) [] in
      let index = unwrap_or (get id s.link_index) [] in
      record s {
        entries =
            insert id (insert height (unwrap_or (get height bucket) [] ++ current ∷ []) bucket)
              s.entries;
        max_heights = raise_max (get id s.max_heights) id height s.max_heights;
        link_index =
            insert id (insert current (unwrap_or (get current index) [] ++ height ∷ []) index)
              s.link_index;
        published =
            insert id (insert current published (unwrap_or (get id s.published) [])) s.published;
      }

  unfoldable pub finish_append :
      Option (BucketLogError Link)
      → Uuid
      → Link
      → ℕ
      → Bool
      → Inner Uuid Link
      → Inner Uuid Link × Result (BucketLogError Link) (Unit {0})
  finish_append (some e) id current height published s = (s, err e)
  finish_append none id current height published s =
      (add_entry id current height published s, ok tt)

  unfoldable pub append :
      Link
      → Uuid
      → Name
      → Link
      → Option Link
      → ℕ
      → Bool
      → Inner Uuid Link
      → Inner Uuid Link × Result (BucketLogError Link) (Unit {0})
  append default_link id name current previous height published s =
      let s' = open_bucket id name s in
      finish_append
        (check_append default_link current previous height (unwrap_or (get id s'.entries) [])) id
        current height published s'

  -- The provided method `BucketLogProvider::head`; the height of the log is asked for also where
  -- one is given.
  unfoldable pub head : Uuid → Option ℕ → Inner Uuid Link → Result (BucketLogError Link) (Link × ℕ)
  head id at s = do
    top ← height id s
    let h : ℕ = unwrap_or at top
    link ← ok_or (max_by_key (λ l. l) (heads id h s)) (head_not_found h)
    ok (link, h)

  unfoldable pub latest_published : Uuid → Inner Uuid Link → Option (Link × ℕ)
  unfolding scan_tables
  latest_published id s = scan_tables (get id s.published) (get id s.entries)
