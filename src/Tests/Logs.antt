-- ===== src/Tests/Logs.antt =====
-- Two small operation logs, of the peers 1 and 2 with numbers for links: each peer has added the
-- file "a", and the second has removed it again.
use jax_fs.Prelude.{ℕ, false, ◌≡◌, refl, none, some, [], ◌∷◌, arith, Option}
use jax_fs.Ord.{u64_ord}
use jax_fs.FilePath.{FilePath}
use jax_fs.BTreeMap.{get}
use jax_fs.PathOps.Op.{OpType, OpId, PathOperation, op_id_ord, cmp_op_id, cmp_op_id-eq}
use jax_fs.PathOps.Log.{PathOpLog}
use jax_fs.PathOps.Valid.{IsValid, HasRoom}
use jax_fs.PathOps.Semilattice.{Agree}

abbrev pub a_path : FilePath
a_path = (b'a' ∷ []) ∷ []

abbrev pub b_path : FilePath
b_path = (b'b' ∷ []) ∷ []

abbrev pub id_of : ℕ → ℕ → OpId ℕ
id_of timestamp peer_id = record { timestamp = timestamp; peer_id = peer_id }

abbrev pub operation : ℕ → ℕ → OpType → Option ℕ → PathOperation ℕ ℕ
operation timestamp peer_id op_type link = record {
  id = id_of timestamp peer_id;
  op_type = op_type;
  path = a_path;
  content_link = link;
  is_dir = false;
}

abbrev pub added_1 : PathOperation ℕ ℕ
added_1 = operation 1 1 OpType.add (some 10)

abbrev pub added_2 : PathOperation ℕ ℕ
added_2 = operation 1 2 OpType.add (some 20)

abbrev pub removed_2 : PathOperation ℕ ℕ
removed_2 = operation 2 2 OpType.remove none

abbrev pub log_1 : PathOpLog ℕ ℕ
log_1 = record { operations = (id_of 1 1, added_1) ∷ []; local_clock = 1 }

abbrev pub log_2 : PathOpLog ℕ ℕ
log_2 = record { operations = (id_of 1 2, added_2) ∷ (id_of 2 2, removed_2) ∷ []; local_clock = 2 }

pub log_1-IsValid : IsValid log_1
log_1-IsValid = record { sorted = (tt, tt); keyed = (refl, tt); clocked = (omega arith, tt) }

pub log_2-IsValid : IsValid log_2
unfolding cmp_op_id
log_2-IsValid = record {
  sorted = ((refl, tt), (tt, tt));
  keyed = (refl, (refl, tt));
  clocked = (omega arith, (omega arith, tt));
}

pub log_1-HasRoom : HasRoom log_1.operations
log_1-HasRoom = (omega arith, tt)

pub log_2-HasRoom : HasRoom log_2.operations
log_2-HasRoom = (omega arith, (omega arith, tt))

-- No identifier is in both.
pub logs-Agree : Agree log_1 log_2
unfolding get
logs-Agree k v w e f =
    let at : k ≡ id_of 1 1 = ground (arith, cmp_op_id-eq k (id_of 1 1)) in
    let absent : get k log_2.operations ≡ none = rw at (unfold cmp_op_id in refl) in cc (f, absent)
