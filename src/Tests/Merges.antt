-- ===== src/Tests/Merges.antt =====
-- A mount merges another one that has removed a file.
use jax_fs.Prelude.{ℕ, ◌≡◌, refl, false, none, some, [], ◌∷◌}
use jax_fs.Prelude.Results.{Result, ok, err}
use jax_fs.Ord.{u64_ord}
use jax_fs.Ord.Lex.{lex_ord}
use jax_fs.FilePath.{FilePath}
use jax_fs.PathOps.Op.{op_id_ord}
use jax_fs.PathOps.Log.{new}
use jax_fs.Conflict.Types.{MergeResult, no_changes}
use jax_fs.Conflict.Resolvers.{last_write_wins}
use jax_fs.Manifest.Types.{PrincipalRole, Share, Manifest}
use jax_fs.Mount.Node.{new_node}
use jax_fs.Mount.Blobs.{MountError}
use jax_fs.Mount.Session.{Session, cat}
use jax_fs.Mount.Files.{add, rm}
use jax_fs.Mount.Save.{save}
use jax_fs.Mount.Chain.{find_mount_ancestor}
use jax_fs.Mount.Merge.{merge_from}
use jax_fs.Mount.Ancestor.{IsMeeting, find_mount_ancestor_lem}
use jax_fs.Mount.Merged.{cat-merge_from}
use jax_fs.Tests.Disk.{Blob, disk, vault, to_version}
use jax_fs.Tests.DiskLaws.{store_laws, codec_laws}

abbrev owner : Share disk
owner = record { principal = record { role = PrincipalRole.owner; identity = 7 }; share = some 0 }

abbrev genesis : Manifest disk
genesis = record {
  id = 5;
  name = [];
  height = 0;
  version = 0;
  shares = (7 ∷ [], owner) ∷ [];
  entry = 0;
  pins = 0;
  previous = none;
  ops_log = none;
  public = none;
  author = none;
  signature = none;
}

abbrev mount : Session disk vault
mount = record {
  inner = record {
    link = 0;
    manifest = genesis;
    entry = new_node disk;
    pins = [];
    height = 0;
    ops_log = new;
    peer_id = 7;
    secret_key = 7;
  };
  world = record { store = to_version genesis ∷ []; draws = 0 };
}

abbrev a : FilePath
a = (1 ∷ []) ∷ []

abbrev ours : Session disk vault
ours = (save disk vault false (add disk vault a (Blob.content 10) mount).0).0

abbrev theirs : Session disk vault
theirs = (save disk vault false (rm disk vault a ours).0).0

-- Our version, with the blobs of the other peer.
abbrev synced : Session disk vault
synced = record ours { world = theirs.world }

abbrev value : Result (MountError disk) (MergeResult ℕ ℕ × ℕ) → MergeResult ℕ ℕ × ℕ
value (ok r) = r
value (err e) = (no_changes, 0)

abbrev merged : Session disk vault × Result (MountError disk) (MergeResult ℕ ℕ × ℕ)
merged = merge_from disk vault 5 theirs.inner last_write_wins synced

run_merge :
    merge_from disk vault 5 theirs.inner last_write_wins synced ≡ (merged.0, ok (value merged.1))
unfolding save add rm cat merge_from find_mount_ancestor
run_merge = refl

run_cat : cat disk vault a synced ≡ ok (Blob.content 10)
unfolding save add rm cat merge_from find_mount_ancestor
run_cat = refl

their_cat : cat disk vault a theirs ≡ err (MountError.path_not_found a)
unfolding save add rm cat merge_from find_mount_ancestor
their_cat = refl

cat-merge_from_example : cat disk vault a merged.0 ≡ ok (Blob.content 10)
cat-merge_from_example =
    cat-merge_from disk vault store_laws codec_laws 5 theirs.inner last_write_wins (value merged.1)
      a (Blob.content 10) synced merged.0 run_merge run_cat

run_ancestor :
    find_mount_ancestor disk vault 5 synced.inner theirs.inner synced.world.store
    ≡ ok (some ours.inner.link)
unfolding save add rm cat merge_from find_mount_ancestor
run_ancestor = refl

find_mount_ancestor_lem_example :
    IsMeeting disk vault synced.world.store synced.inner.link theirs.inner.link
      (some ours.inner.link)
find_mount_ancestor_lem_example =
    find_mount_ancestor_lem disk vault synced.world.store 5 synced.inner theirs.inner
      (some ours.inner.link) run_ancestor
