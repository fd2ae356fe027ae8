-- ===== src/PathOps/Op.antt =====
-- crates/common/src/mount/path_ops.rs: operations and their identifiers. The public keys of peers
-- and the links are parameters; of the keys the code uses the total order.
use Prim.Native.Nat.{compare}
use Prim.Native.Nat.Ordering.{lt, eq, gt}
use jax_fs.Prelude.{ℕ, Ordering, ◌≡◌, Bool, Option, arith}
use jax_fs.Ord.{Ord}
use jax_fs.FilePath.{FilePath}

pub data OpType : Type 0 where
  add remove mkdir : OpType
  mv : FilePath → OpType

-- `timestamp` is a `u64`, a Lamport clock.
pub record OpId (Key : Type 0) : Type 0 where
  pub timestamp : ℕ
  pub peer_id : Key

pub record PathOperation (Key Link : Type 0) : Type 0 where
  pub id : OpId Key
  pub op_type : OpType
  pub path : FilePath
  pub content_link : Option Link
  pub is_dir : Bool

module _ {Key : Type 0} ⦃o : Ord Key⦄ where
  -- `impl Ord for OpId`: the timestamp first, then the peer.
  unfoldable pub cmp_op_id : OpId Key → OpId Key → Ordering
  cmp_op_id a b = elim (compare a.timestamp b.timestamp) [
    | lt ↦ lt
    | eq ↦ o.cmp a.peer_id b.peer_id
    | gt ↦ gt
  ]

  pub cmp_op_id_refl : (a : OpId Key) → cmp_op_id a a ≡ eq
  unfolding cmp_op_id
  cmp_op_id_refl a = ground (arith, o.cmp_refl a.peer_id)

  pub cmp_op_id-eq : (a b : OpId Key) → cmp_op_id a b ≡ eq → a ≡ b
  unfolding cmp_op_id
  cmp_op_id-eq a b h = ground (arith, o.eq_of_cmp a.peer_id b.peer_id)

  pub cmp_op_id-gt : (a b : OpId Key) → cmp_op_id a b ≡ gt → cmp_op_id b a ≡ lt
  unfolding cmp_op_id
  cmp_op_id-gt a b h = ground (arith, o.lt_of_cmp_gt a.peer_id b.peer_id)

  pub cmp_op_id-lt : (a b : OpId Key) → cmp_op_id a b ≡ lt → cmp_op_id b a ≡ gt
  unfolding cmp_op_id
  cmp_op_id-lt a b h = ground (arith, o.gt_of_cmp_lt a.peer_id b.peer_id)

  pub cmp_op_id_trans :
      (a b c : OpId Key) → cmp_op_id a b ≡ lt → cmp_op_id b c ≡ lt → cmp_op_id a c ≡ lt
  unfolding cmp_op_id
  cmp_op_id_trans a b c h k = ground (arith, o.cmp_trans a.peer_id b.peer_id c.peer_id)

  instance abbrev pub op_id_ord : Ord (OpId Key)
  op_id_ord = record {
    cmp = cmp_op_id;
    cmp_refl = cmp_op_id_refl;
    eq_of_cmp = cmp_op_id-eq;
    lt_of_cmp_gt = cmp_op_id-gt;
    gt_of_cmp_lt = cmp_op_id-lt;
    cmp_trans = cmp_op_id_trans;
  }
