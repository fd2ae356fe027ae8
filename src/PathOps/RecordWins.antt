-- ===== src/PathOps/RecordWins.antt =====
-- A recorded operation is the newest of its log: it wins its path and touches no other.
use jax_fs.Prelude.{
  ℕ, ◌+◌, ◌%◌, ◌≤◌, ◌<◌, ◌≡◌, refl, Option, none, some, [], ◌∷◌, arith, Bool, ◌∙◌, if◌then◌else◌,
  u64_mod,
}
use jax_fs.Ord.{Ord, u64_ord, ◌==◌}
use jax_fs.Ord.Lex.{lex_ord}
use jax_fs.BTreeMap.{BTreeMap}
use jax_fs.FilePath.{FilePath}
use jax_fs.PathOps.Op.{OpType, OpId, PathOperation, op_id_ord, cmp_op_id}
use jax_fs.PathOps.Log.{PathOpLog, put, record_op}
use jax_fs.PathOps.Resolve.{resolve_path}
use jax_fs.PathOps.Valid.{IsValid, Keyed, Clocked, record_op-IsValid, get_past_clock}
use jax_fs.PathOps.Winner.{last_on, later_of, last_on-insert, resolve_path_last}

module _ {Key Link : Type 0} where
  last_on-le :
      (path : FilePath) (c : ℕ) (ops : BTreeMap (OpId Key) (PathOperation Key Link))
      {w : PathOperation Key Link}
      → Clocked c ops
      → Keyed ops
      → last_on path ops ≡ some w
      → w.id.timestamp ≤ c
  unfolding last_on
  last_on-le path c [] h k e = cc
  last_on-le path c ((j, op) ∷ ops) {w} h k e =
      ground (arith, last_on-le path c ops {w = w}, h.0, k.0)

module _ {Key Link : Type 0} ⦃o : Ord Key⦄ where
  older_loses :
      (l : Option (PathOperation Key Link)) (op : PathOperation Key Link)
      → ((w : PathOperation Key Link) → l ≡ some w → w.id.timestamp < op.id.timestamp)
      → later_of l op ≡ some op
  older_loses none op h = refl
  older_loses (some w) op h = unfold cmp_op_id in ground (arith, h w refl)

  -- After `record` on a valid log whose clock has room, the new operation is what its path resolves
  -- to, and every other path resolves as before.
  pub resolve_path-record_op :
      (peer_id : Key) (op_type : OpType) (path : FilePath) (link : Option Link) (is_dir : Bool)
      (log : PathOpLog Key Link) (q : FilePath)
      → IsValid log
      → log.local_clock + 1 < u64_mod
      → resolve_path q (record_op peer_id op_type path link is_dir log).0 ≡ (
          if path == q
          then some (record {
            id = (record_op peer_id op_type path link is_dir log).1;
            op_type = op_type;
            path = path;
            content_link = link;
            is_dir = is_dir;
          })
          else resolve_path q log)
  unfolding record_op put
  resolve_path-record_op peer_id op_type path link is_dir log q v room =
      let id : OpId Key = record {
        timestamp = (log.local_clock + 1) % u64_mod;
        peer_id = peer_id;
      } in
      let op : PathOperation Key Link = record {
        id = id;
        op_type = op_type;
        path = path;
        content_link = link;
        is_dir = is_dir;
      } in
      let v' = record_op-IsValid peer_id op_type path link is_dir log v room in
      let wins : later_of (last_on q log.operations) op ≡ some op =
        older_loses (last_on q log.operations) op λ w e.
          let old = last_on-le q log.local_clock log.operations v.clocked v.keyed e in
          omega arith in
      resolve_path_last q _ v'.sorted v'.keyed
      ∙ last_on-insert q id op log.operations v.sorted v.keyed refl
          (get_past_clock id log v (omega arith))
      ∙ rw (wins, resolve_path_last q log v.sorted v.keyed)
