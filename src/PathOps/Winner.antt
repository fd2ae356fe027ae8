-- ===== src/PathOps/Winner.antt =====
-- What wins a path: the greatest identifier, which is the last one in the order of the log.
use jax_fs.Prelude.{
  ◌≡◌, refl, none, some, false, [], ◌∷◌, arith, Option, unwrap_or, or_else, if◌then◌else◌, filter,
  ◌∙◌, ap, Bool-cases, inl, inr,
}
use jax_fs.Ord.{Ord, u64_ord, ◌==◌, ◌≺◌, gtb, cmp-cases}
use jax_fs.Ord.Lex.{lex_ord}
use jax_fs.Ord.Max.{max_by_key, max_from, max_from_less}
use jax_fs.BTreeMap.{BTreeMap, get, values, insert, insert_before, insert_after}
use jax_fs.BTreeMap.Sorted.{IsSorted, Above, Above-trans}
use jax_fs.FilePath.{FilePath}
use jax_fs.PathOps.Op.{OpId, PathOperation, op_id_ord, cmp_op_id-gt, cmp_op_id-lt}
use jax_fs.PathOps.Log.{PathOpLog}
use jax_fs.PathOps.Valid.{Keyed}
use jax_fs.PathOps.Resolve.{resolve_path}

module _ {Key Link : Type 0} where
  abbrev pub if_on : FilePath → PathOperation Key Link → Option (PathOperation Key Link)
  if_on path op = if op.path == path then some op else none

  -- The last operation on a path.
  unfoldable pub last_on :
      FilePath → BTreeMap (OpId Key) (PathOperation Key Link) → Option (PathOperation Key Link)
  last_on path [] = none
  last_on path ((id, op) ∷ ops) = or_else (last_on path ops) (if_on path op)

module _ {Key Link : Type 0} ⦃o : Ord Key⦄ where
  last_or :
      (l : Option (PathOperation Key Link)) (op best : PathOperation Key Link)
      → unwrap_or l op ≡ unwrap_or (or_else l (some op)) best
  last_or none op best = refl
  last_or (some w) op best = refl

  or_none :
      (l : Option (PathOperation Key Link)) (best : PathOperation Key Link)
      → unwrap_or l best ≡ unwrap_or (or_else l none) best
  or_none none best = refl
  or_none (some w) best = refl

  some_or :
      (l : Option (PathOperation Key Link)) (op : PathOperation Key Link)
      → some (unwrap_or l op) ≡ or_else l (some op)
  some_or none op = refl
  some_or (some w) op = refl

  or_else-none : (l : Option (PathOperation Key Link)) → l ≡ or_else l none
  or_else-none none = refl
  or_else-none (some w) = refl

  max_from-filter :
      (path : FilePath) (best : PathOperation Key Link)
      (ops : BTreeMap (OpId Key) (PathOperation Key Link))
      → IsSorted ops
      → Keyed ops
      → Above best.id ops
      → max_from (λ op. op.id) best (filter (λ op. op.path == path) (values ops))
        ≡ unwrap_or (last_on path ops) best
  unfolding max_from filter values last_on
  max_from-filter path best [] s k a = refl
  max_from-filter path best ((id, op) ∷ ops) s k a = elim (Bool-cases (op.path == path)) [
    | inl t ↦ rw t (
        max_from_less (λ op. op.id) best op (filter (λ op. op.path == path) (values ops))
          (rw k.0 a.0)
        ∙ max_from-filter path op ops s.1 k.1 (rw k.0 s.0)
        ∙ last_or (last_on path ops) op best)
    | inr f ↦ rw f (max_from-filter path best ops s.1 k.1 a.1 ∙ or_none (last_on path ops) best)
  ]

  max_by_key-filter :
      (path : FilePath) (ops : BTreeMap (OpId Key) (PathOperation Key Link))
      → IsSorted ops
      → Keyed ops
      → max_by_key (λ op. op.id) (filter (λ op. op.path == path) (values ops)) ≡ last_on path ops
  unfolding max_by_key filter values last_on
  max_by_key-filter path [] s k = refl
  max_by_key-filter path ((id, op) ∷ ops) s k = elim (Bool-cases (op.path == path)) [
    | inl t ↦
        rw t (
          ap some (max_from-filter path op ops s.1 k.1 (rw k.0 s.0))
          ∙ some_or (last_on path ops) op)
    | inr f ↦ rw f (max_by_key-filter path ops s.1 k.1 ∙ or_else-none (last_on path ops))
  ]

  -- The winner of a path is the last operation on it.
  pub resolve_path_last :
      (path : FilePath) (log : PathOpLog Key Link)
      → IsSorted log.operations
      → Keyed log.operations
      → resolve_path path log ≡ last_on path log.operations
  unfolding resolve_path
  resolve_path_last path log s k = max_by_key-filter path log.operations s k

  -- What wins a path is on it, and comes after whatever the log's operations come after.
  pub last_on_above :
      (path : FilePath) (id : OpId Key) (ops : BTreeMap (OpId Key) (PathOperation Key Link))
      {w : PathOperation Key Link}
      → Above id ops
      → Keyed ops
      → last_on path ops ≡ some w
      → id ≺ w.id
  unfolding last_on
  last_on_above path id [] a k e = cc
  last_on_above path id ((j, op) ∷ ops) {w} a k e =
      ground (arith, last_on_above path id ops {w = w}, a.0, k.0)

  -- The later of two candidates for a path.
  abbrev pub later_of :
      Option (PathOperation Key Link) → PathOperation Key Link → Option (PathOperation Key Link)
  later_of none op = some op
  later_of (some w) op = if gtb w.id op.id then some w else some op

  append_later :
      (path : FilePath) (l : Option (PathOperation Key Link)) (op : PathOperation Key Link)
      → ((w : PathOperation Key Link) → l ≡ some w → op.id ≺ w.id)
      → or_else l (if_on path op) ≡ (if op.path == path then later_of l op else l)
  append_later path none op h = refl
  append_later path (some w) op h = ground (arith, h w refl, cmp_op_id-lt op.id w.id)

  -- A new operation on the path wins it exactly against earlier ones.
  pub last_on-insert :
      (path : FilePath) (id : OpId Key) (op : PathOperation Key Link)
      (ops : BTreeMap (OpId Key) (PathOperation Key Link))
      → IsSorted ops
      → Keyed ops
      → op.id ≡ id
      → get id ops ≡ none
      → last_on path (insert id op ops)
        ≡ (if op.path == path then later_of (last_on path ops) op else last_on path ops)
  unfolding last_on insert get
  last_on-insert path id op [] s k e n = ground arith
  last_on-insert path id op ((j, w) ∷ ops) s k e n = elim (cmp-cases id j) [
    | inl below ↦ rw (insert_before id j op w ops below) (
        append_later path (or_else (last_on path ops) (if_on path w)) op λ x h.
          rw e (last_on_above path id ((j, w) ∷ ops) (below, Above-trans id j ops below s.0) k h))
    | inr (inl same) ↦ absurd (ground arith)
    | inr (inr above) ↦
        let ih = last_on-insert path id op ops s.1 k.1 e (ground arith) in
        let late : gtb w.id op.id ≡ false = ground (arith, cmp_op_id-gt id j, k.0) in
        rw (insert_after id j op w ops above) (ground arith)
  ]
