-- ===== src/BucketLog/Observe.antt =====
-- What the queries of the log see after the two writes of `append`.
use jax_fs.Prelude.{
  ℕ, ◌≡◌, refl, Bool, ◌&&◌, Option, none, some, List, [], ◌∷◌, ◌++◌, arith, unwrap_or, ltb,
  if◌then◌else◌, Bool-cases, inl, inr,
}
use jax_fs.Ord.{Ord, u64_ord, ◌==◌, eq_of_==}
use jax_fs.BTreeMap.{BTreeMap, get, insert, get-insert}
use jax_fs.FilePath.{Name}
use jax_fs.BucketLog.Memory.{Inner, heads, has, open_bucket, add_entry, raise_max}

module _ {K L : Type 0} {V : Type 0} ⦃ko : Ord K⦄ ⦃lo : Ord L⦄ where
  -- A table of tables of lists.
  abbrev pub read2 : K → L → BTreeMap K (BTreeMap L (List V)) → List V
  read2 k l m = unwrap_or (get l (unwrap_or (get k m) [])) []

  -- `entry(k).or_default().entry(l).or_default().push(v)`
  abbrev pub push2 : K → L → V → BTreeMap K (BTreeMap L (List V)) → BTreeMap K (BTreeMap L (List V))
  push2 k l v m =
      insert k
        (insert l (unwrap_or (get l (unwrap_or (get k m) [])) [] ++ v ∷ [])
          (unwrap_or (get k m) []))
        m

  pub read2-push2 :
      (k i : K) (l j : L) (v : V) (m : BTreeMap K (BTreeMap L (List V)))
      → read2 i j (push2 k l v m)
        ≡ (if i == k && j == l then read2 i j m ++ v ∷ [] else read2 i j m)
  read2-push2 k i l j v m =
      let inner = unwrap_or (get k m) [] in
      elim (Bool-cases (i == k)) [
        | inl t ↦
            let outer : get i (push2 k l v m) ≡ some (insert l (read2 k l m ++ v ∷ []) inner) =
              ground (arith, get-insert k i (insert l (read2 k l m ++ v ∷ []) inner) m, t) in
            let e : i ≡ k = eq_of_== i k t in
            elim (Bool-cases (j == l)) [
              | inl u ↦
                  let f : j ≡ l = eq_of_== j l u in
                  rw (t, u, outer, get-insert l j (read2 k l m ++ v ∷ []) inner, u) (rw (e, f))
              | inr u ↦ rw (t, u, outer, get-insert l j (read2 k l m ++ v ∷ []) inner, u) (rw e)
            ]
        | inr f ↦ rw (f, get-insert k i (insert l (read2 k l m ++ v ∷ []) inner) m, f)
      ]

-- The greater of the recorded height and the new one.
abbrev pub max_of : Option ℕ → ℕ → ℕ
max_of none h = h
max_of (some top) h = if ltb top h then h else top

module _ {Uuid : Type 0} ⦃uo : Ord Uuid⦄ where
  get-raise_max :
      (id i : Uuid) (h : ℕ) (m : BTreeMap Uuid ℕ)
      → get i (raise_max (get id m) id h m)
        ≡ (if i == id then some (max_of (get id m) h) else get i m)
  get-raise_max id i h m = elim (Bool-cases (i == id)) [
    | inl t ↦
        let here : get i m ≡ get id m = rw (eq_of_== i id t) in ground (arith, get-insert id i h m)
    | inr f ↦ ground (arith, get-insert id i h m)
  ]

module _ {Uuid Link : Type 0} ⦃uo : Ord Uuid⦄ ⦃lo : Ord Link⦄ where
  pub heads-open_bucket :
      (id i : Uuid) (h : ℕ) (name : Name) (s : Inner Uuid Link)
      → heads i h (open_bucket id name s) ≡ heads i h s
  unfolding heads open_bucket
  heads-open_bucket id i h name s = elim (Bool-cases (i == id)) [
    | inl t ↦
        rw (get-insert id i (unwrap_or (get id s.entries) []) s.entries, t) (rw (eq_of_== i id t))
    | inr f ↦ rw (get-insert id i (unwrap_or (get id s.entries) []) s.entries, f)
  ]

  pub heads-add_entry :
      (id i : Uuid) (h height : ℕ) (current : Link) (published : Bool) (s : Inner Uuid Link)
      → heads i h (add_entry id current height published s)
        ≡ (if i == id && h == height then heads i h s ++ current ∷ [] else heads i h s)
  unfolding heads add_entry
  heads-add_entry id i h height current published s = read2-push2 id i height h current s.entries

  pub has-open_bucket :
      (id i : Uuid) (l : Link) (name : Name) (s : Inner Uuid Link)
      → has i l (open_bucket id name s) ≡ has i l s
  unfolding has open_bucket
  has-open_bucket id i l name s = refl

  pub has-add_entry :
      (id i : Uuid) (l current : Link) (height : ℕ) (published : Bool) (s : Inner Uuid Link)
      → has i l (add_entry id current height published s)
        ≡ (if i == id && l == current then has i l s ++ height ∷ [] else has i l s)
  unfolding has add_entry
  has-add_entry id i l current height published s = read2-push2 id i current l height s.link_index

  pub max_heights-add_entry :
      (id i : Uuid) (height : ℕ) (current : Link) (published : Bool) (s : Inner Uuid Link)
      → get i (add_entry id current height published s).max_heights
        ≡ (if i == id then some (max_of (get id s.max_heights) height) else get i s.max_heights)
  unfolding add_entry
  max_heights-add_entry id i height current published s = get-raise_max id i height s.max_heights
