-- ===== src/PathOps/ResolveAll.antt =====
-- `resolve_all` lists exactly the paths whose winner is not a `Remove`, each with its winner.
use mathlib.Core.List.{append_assoc, append-nil}
use jax_fs.Prelude.{
  ◌≡◌, refl, sym, ap, true, false, Option, none, some, List, [], ◌∷◌, ◌++◌, ◌∙◌, arith, All,
  All-All, Bool-cases, inl, inr, or_else, unwrap_or, filter, if◌then◌else◌,
}
use jax_fs.Ord.{Ord, u64_ord, ◌==◌, eq_of_==, ==_comm, ==_of_lt}
use jax_fs.Ord.Lex.{lex_ord}
use jax_fs.Ord.Max.{max_by_key}
use jax_fs.BTreeMap.{BTreeMap, get, insert, values, get-insert, get-cons}
use jax_fs.BTreeMap.Sorted.{IsSorted, insert-IsSorted, get-Above, All-imp-Above}
use jax_fs.FilePath.{FilePath}
use jax_fs.PathOps.Op.{PathOperation, op_id_ord}
use jax_fs.PathOps.Log.{PathOpLog}
use jax_fs.PathOps.Resolve.{
  is_remove, group_by_path, keep_winner, pick_winners, resolve_path, ops_for_path, resolve_all,
}

module _ {Key Link : Type 0} where
  -- The group of a path after some operations on it have been pushed.
  abbrev add_group :
      Option (List (PathOperation Key Link))
      → List (PathOperation Key Link)
      → Option (List (PathOperation Key Link))
  add_group none [] = none
  add_group none (op ∷ ops) = some (op ∷ ops)
  add_group (some l) ops = some (l ++ ops)

  add_group_push :
      (l : Option (List (PathOperation Key Link))) (op : PathOperation Key Link)
      (ops : List (PathOperation Key Link))
      → add_group (some (unwrap_or l [] ++ op ∷ [])) ops ≡ add_group l (op ∷ ops)
  add_group_push none op ops = refl
  add_group_push (some l) op ops = ap some (append_assoc l (op ∷ []) ops)

  add_group_nil : (l : Option (List (PathOperation Key Link))) → l ≡ add_group l []
  add_group_nil none = refl
  add_group_nil (some l) = ap some (sym (append-nil l))

  get-group_by_path :
      (p : FilePath) (ops : List (PathOperation Key Link))
      (acc : BTreeMap FilePath (List (PathOperation Key Link)))
      → get p (group_by_path ops acc) ≡ add_group (get p acc) (filter (λ op. op.path == p) ops)
  unfolding group_by_path filter
  get-group_by_path p [] acc = add_group_nil (get p acc)
  get-group_by_path p (op ∷ ops) acc =
      let group = λ (q : FilePath). unwrap_or (get q acc) [] ++ op ∷ [] in
      let rest = filter (λ (x : PathOperation Key Link). x.path == p) ops in
      let read = get-insert op.path p (group op.path) acc in
      let ih = get-group_by_path p ops (insert op.path (group op.path) acc) in
      elim (Bool-cases (op.path == p)) [
        | inl t ↦
            let here : (p == op.path) ≡ true = ==_comm p op.path ∙ t in
            rw t (
              ih
              ∙ ap (λ l. add_group l rest)
                  (read ∙ rw here refl ∙ ap (λ q. some (group q)) (eq_of_== op.path p t))
              ∙ add_group_push (get p acc) op rest)
        | inr f ↦
            let other : (p == op.path) ≡ false = ==_comm p op.path ∙ f in
            rw f (ih ∙ ap (λ l. add_group l rest) (read ∙ rw other refl))
      ]

  group_by_path-IsSorted :
      (ops : List (PathOperation Key Link))
      (acc : BTreeMap FilePath (List (PathOperation Key Link)))
      → IsSorted acc
      → IsSorted (group_by_path ops acc)
  unfolding group_by_path
  group_by_path-IsSorted [] acc s = s
  group_by_path-IsSorted (op ∷ ops) acc s =
      group_by_path-IsSorted ops _ (insert-IsSorted op.path _ acc s)

  -- A path whose winner is a `Remove` is gone.
  abbrev pub standing : Option (PathOperation Key Link) → Option (PathOperation Key Link)
  standing none = none
  standing (some w) = if is_remove w.op_type then none else some w

  get-keep_winner :
      (p q : FilePath) (w : Option (PathOperation Key Link))
      (result : BTreeMap FilePath (PathOperation Key Link))
      → get q result ≡ none
      → get p (keep_winner q w result) ≡ (if p == q then standing w else get p result)
  unfolding keep_winner
  get-keep_winner p q none result h = elim (Bool-cases (p == q)) [
    | inl t ↦ rw (t, eq_of_== p q t) h
    | inr f ↦ rw f
  ]
  get-keep_winner p q (some w) result h = elim (Bool-cases (p == q)) [
    | inl t ↦
        let gone : get p result ≡ none = rw (eq_of_== p q t) h in
        ground (arith, get-insert q p w result)
    | inr f ↦ ground (arith, get-insert q p w result)
  ]

module _ {Key Link : Type 0} ⦃o : Ord Key⦄ where
  abbrev winner_of : Option (List (PathOperation Key Link)) → Option (PathOperation Key Link)
  winner_of none = none
  winner_of (some ops) = standing (max_by_key (λ op. op.id) ops)

  or_none : (l : Option (PathOperation Key Link)) → l ≡ or_else l none
  or_none none = refl
  or_none (some w) = refl

  winner_of_group :
      (path : FilePath) (ops : List (PathOperation Key Link))
      → or_else (winner_of (add_group (get {V = List (PathOperation Key Link)} path []) ops)) none
        ≡ standing (max_by_key (λ op. op.id) ops)
  unfolding get max_by_key
  winner_of_group path [] = refl
  winner_of_group path (op ∷ ops) = sym (or_none (standing (max_by_key (λ op. op.id) (op ∷ ops))))

  get-pick_winners :
      (p : FilePath) (m : BTreeMap FilePath (List (PathOperation Key Link)))
      (result : BTreeMap FilePath (PathOperation Key Link))
      → IsSorted m
      → All (λ e. get e.0 result ≡ none) m
      → get p (pick_winners m result) ≡ or_else (winner_of (get p m)) (get p result)
  unfolding pick_winners
  get-pick_winners p [] result s h = unfold get in refl
  get-pick_winners p ((q, ops) ∷ m) result s h =
      let w = max_by_key (λ (op : PathOperation Key Link). op.id) ops in
      let result' = keep_winner q w result in
      let ih = get-pick_winners p m result' s.1 (
        All-imp-Above q
          (λ e above g. get-keep_winner e.0 q w result h.0 ∙ rw (==_of_lt q e.0 above) g) m s.0
          h.1) in
      ih ∙ elim (Bool-cases (p == q)) [
        | inl t ↦
            let e : p ≡ q = eq_of_== p q t in
            rw (get-keep_winner p q w result h.0, get-cons p q ops m, t)
              (rw e (rw (get-Above q m s.0, h.0) (or_none (standing w))))
        | inr f ↦ rw (get-keep_winner p q w result h.0, get-cons p q ops m, f) refl
      ]

  -- For every path: `resolve_all` has the winner of the path, unless there is none or it is a
  -- `Remove`.
  pub resolve_all-eq_winners :
      (path : FilePath) (log : PathOpLog Key Link)
      → get path (resolve_all log) ≡ standing (resolve_path path log)
  unfolding resolve_all resolve_path ops_for_path
  resolve_all-eq_winners path log =
      get-pick_winners path (group_by_path (values log.operations) []) []
        (group_by_path-IsSorted (values log.operations) [] tt) (All-All (λ e. unfold get in refl) _)
      ∙ ap (λ g. or_else (winner_of g) none) (get-group_by_path path (values log.operations) [])
      ∙ winner_of_group path (filter (λ op. op.path == path) (values log.operations))
