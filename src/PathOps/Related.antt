-- ===== src/PathOps/Related.antt =====
-- Two tables of operations that leave every path to the same winner, though one may lack operations
-- that lose: what the merges of path_ops.rs hold in step.
use jax_fs.Prelude.{
  ◌≡◌, sym, ap, true, false, none, some, [], ◌∷◌, ◌∙◌, arith, All, All-imp, inl, inr, Bool-cases,
  Option-cases, if◌then◌else◌,
}
use jax_fs.Ord.{Ord, ◌==◌, ◌≺◌, gtb, eq_of_==, u64_ord}
use jax_fs.Ord.Max.{gtb_of_lt_le}
use jax_fs.Ord.Lex.{lex_ord}
use jax_fs.BTreeMap.{BTreeMap, get, insert, values, get-insert, All-insert}
use jax_fs.BTreeMap.Sorted.{IsSorted, Above, insert-IsSorted, All-imp-Above}
use jax_fs.FilePath.{FilePath}
use jax_fs.PathOps.Op.{OpId, PathOperation, op_id_ord, cmp_op_id_refl, cmp_op_id-lt}
use jax_fs.PathOps.Valid.{Keyed}
use jax_fs.PathOps.Winner.{last_on, later_of, last_on_above, last_on-insert}

module _ {Key Link : Type 0} ⦃o : Ord Key⦄ where
  -- An operation on a path is the winner of the path or comes before it.
  abbrev pub Covered :
      FilePath → BTreeMap (OpId Key) (PathOperation Key Link) → PathOperation Key Link → Type 0
  Covered path ops x =
      (x.path == path) ≡ true
      → (w : PathOperation Key Link) × (last_on path ops ≡ some w) × (gtb x.id w.id ≡ false)

  cover_head :
      (path : FilePath) (id : OpId Key) (op : PathOperation Key Link)
      (ops : BTreeMap (OpId Key) (PathOperation Key Link))
      → Above id ops
      → Keyed ops
      → op.id ≡ id
      → Covered path ((id, op) ∷ ops) op
  unfolding last_on
  cover_head path id op ops a k e t = elim (Option-cases (last_on path ops)) [
    | inl empty ↦ (op, ground arith, ground (arith, cmp_op_id_refl op.id))
    | inr (w, won) ↦
        let late : id ≺ w.id = last_on_above path id ops a k won in (w, ground arith, ground arith)
  ]

  pub All-Covered :
      (path : FilePath) (ops : BTreeMap (OpId Key) (PathOperation Key Link))
      → IsSorted ops
      → Keyed ops
      → All (Covered path ops) (values ops)
  unfolding values
  All-Covered path [] s k = tt
  All-Covered path ((id, op) ∷ ops) s k = (
    cover_head path id op ops s.0 k.1 k.0,
    All-imp (λ x c t. let (w, won, le) = c t in (w, unfold last_on in rw won, le)) (values ops)
        (All-Covered path ops s.1 k.1),
  )

  -- The tables of the two merges at one point of the loop, before the entries `es`.
  pub record Related (mb ml : BTreeMap (OpId Key) (PathOperation Key Link))
      (es : BTreeMap (OpId Key) (PathOperation Key Link)) : Type 0 where
    pub sorted_b : IsSorted mb
    pub sorted_l : IsSorted ml
    pub keyed_b : Keyed mb
    pub keyed_l : Keyed ml
    pub same : (path : FilePath) → last_on path mb ≡ last_on path ml
    pub ahead : All (λ e. get e.0 mb ≡ get e.0 ml) es

  module _ (id : OpId Key) (op : PathOperation Key Link)
      (mb ml es : BTreeMap (OpId Key) (PathOperation Key Link)) (above : Above id es)
      (named : op.id ≡ id) (absent_b : get id mb ≡ none) (absent_l : get id ml ≡ none) where
    pub Related-both :
        Related mb ml ((id, op) ∷ es) → Related (insert id op mb) (insert id op ml) es
    Related-both r = record {
      sorted_b = insert-IsSorted id op mb r.sorted_b;
      sorted_l = insert-IsSorted id op ml r.sorted_l;
      keyed_b = All-insert (λ e. e.1.id ≡ e.0) id op mb named r.keyed_b;
      keyed_l = All-insert (λ e. e.1.id ≡ e.0) id op ml named r.keyed_l;
      same = λ path.
          last_on-insert path id op mb r.sorted_b r.keyed_b named absent_b
          ∙ ap (λ l. if op.path == path then later_of l op else l) (r.same path)
          ∙ sym (last_on-insert path id op ml r.sorted_l r.keyed_l named absent_l);
      ahead =
          All-imp (λ e h. ground (arith, get-insert id e.0 op mb, get-insert id e.0 op ml)) es
            r.ahead.1;
    }

    skip_same :
        (base : PathOperation Key Link)
        → Covered op.path ml base
        → (base.path == op.path) ≡ true
        → op.id ≺ base.id
        → (path : FilePath) → last_on path mb ≡ last_on path ml
        → (if op.path == path then later_of (last_on path mb) op else last_on path mb)
          ≡ last_on path ml
    skip_same base covered on_path loses path same = elim (Bool-cases (op.path == path)) [
      | inl t ↦
          let e : op.path ≡ path = eq_of_== op.path path t in
          let (w, won, le) = covered on_path in
          let here : last_on path ml ≡ some w = ap (λ p. last_on p ml) (sym e) ∙ won in
          let late : gtb w.id op.id ≡ true = gtb_of_lt_le op.id base.id w.id loses le in
          rw (t, same, here, late)
      | inr f ↦ rw f same
    ]

    -- An operation that loses to one of its path may be left out.
    pub Related-skip :
        (base : PathOperation Key Link)
        → Covered op.path ml base
        → (base.path == op.path) ≡ true
        → op.id ≺ base.id
        → Related mb ml ((id, op) ∷ es)
        → Related (insert id op mb) ml es
    Related-skip base covered on_path loses r = record {
      sorted_b = insert-IsSorted id op mb r.sorted_b;
      sorted_l = r.sorted_l;
      keyed_b = All-insert (λ e. e.1.id ≡ e.0) id op mb named r.keyed_b;
      keyed_l = r.keyed_l;
      same = λ path.
          last_on-insert path id op mb r.sorted_b r.keyed_b named absent_b
          ∙ skip_same base covered on_path loses path (r.same path);
      ahead =
          All-imp-Above id (λ e h g. ground (arith, get-insert id e.0 op mb, cmp_op_id-lt id e.0))
            es above r.ahead.1;
    }
