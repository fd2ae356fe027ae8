-- ===== src/Tests/Mounts.antt =====
-- The operations of a mount on a small disk: the file a, then the directory d, the file d/b and the
-- move of a to d/c.
use jax_fs.Prelude.{ℕ, List, ◌++◌, ◌≡◌, ◌⊎◌, refl, true, some, none, [], ◌∷◌}
use jax_fs.Prelude.Results.{ok, err, to_option}
use jax_fs.Ord.{u64_ord}
use jax_fs.Ord.Lex.{lex, lex_ord}
use jax_fs.FilePath.{FilePath}
use jax_fs.PathOps.Op.{OpType, op_id_ord}
use jax_fs.PathOps.Log.{record_op, new}
use jax_fs.Manifest.Types.{Manifest}
use jax_fs.Mount.Node.{Node, IsValid, NodeLink, data_link, new_node, is_dir_link}
use jax_fs.Mount.Walk.{descend, set_node_link_at_path}
use jax_fs.Mount.Session.{Session, get_at, get_mount_link, cat}
use jax_fs.Mount.Files.{add, rm, mkdir, mv}
use jax_fs.Mount.Seek.{apart, seek}
use jax_fs.Mount.Adding.{cat-add, cat-add-apart}
use jax_fs.Mount.Succeeds.{add_succeeds}
use jax_fs.Mount.Spliced.{IsOpen, set_node_link_at_path_lem}
use jax_fs.Mount.Blobs.{World, MountError, get_node_from_blobs}
use jax_fs.Mount.Grows.{Extends}
use jax_fs.Mount.Removing.{get-rm}
use jax_fs.Mount.Moving.{get-mv}
use jax_fs.Tests.Disk.{Blob, disk, vault}
use jax_fs.Tests.DiskLaws.{store_laws, codec_laws, write_laws}

abbrev manifest : Manifest disk
manifest = record {
  id = 5;
  name = [];
  height = 0;
  version = 0;
  shares = [];
  entry = 0;
  pins = 0;
  previous = none;
  ops_log = none;
  public = none;
  author = none;
  signature = none;
}

abbrev empty_mount : Session disk vault
empty_mount = record {
  inner = record {
    link = 0;
    manifest = manifest;
    entry = new_node disk;
    pins = [];
    height = 0;
    ops_log = new;
    peer_id = 7;
    secret_key = 7;
  };
  world = record { store = []; draws = 0 };
}

abbrev a : FilePath
a = (1 ∷ []) ∷ []

abbrev d : FilePath
d = (4 ∷ []) ∷ []

abbrev b : FilePath
b = (4 ∷ []) ∷ (2 ∷ []) ∷ []

abbrev c : FilePath
c = (4 ∷ []) ∷ (3 ∷ []) ∷ []

abbrev with_a : Session disk vault
with_a = (add disk vault a (Blob.content 10) empty_mount).0

abbrev with_d : Session disk vault
with_d = (mkdir disk vault d with_a).0

abbrev with_b : Session disk vault
with_b = (add disk vault b (Blob.content 20) with_d).0

abbrev moved : Session disk vault
moved = (mv disk vault a c with_b).0

abbrev without_b : Session disk vault
without_b = (rm disk vault b with_b).0

run_mkdir : mkdir disk vault d with_a ≡ (with_d, ok tt)
unfolding add mkdir rm mv set_node_link_at_path get_at cat
run_mkdir = refl

run_add : add disk vault b (Blob.content 20) with_d ≡ (with_b, ok tt)
unfolding add mkdir rm mv set_node_link_at_path get_at cat
run_add = refl

run_mv : mv disk vault a c with_b ≡ (moved, ok tt)
unfolding add mkdir rm mv set_node_link_at_path get_at cat
run_mv = refl

run_rm : rm disk vault b with_b ≡ (without_b, ok tt)
unfolding add mkdir rm mv set_node_link_at_path get_at cat
run_rm = refl

root_b-IsValid : IsValid disk with_b.inner.entry
unfolding add mkdir rm mv set_node_link_at_path get_at cat
root_b-IsValid = ((refl, tt), (tt, tt))

run_cat_before : cat disk vault a with_d ≡ ok (Blob.content 10)
unfolding add mkdir rm mv set_node_link_at_path get_at cat
run_cat_before = refl

run_cat : cat disk vault a with_b ≡ ok (Blob.content 10)
unfolding add mkdir rm mv set_node_link_at_path get_at cat
run_cat = refl

-- The link to a.
abbrev link_a : NodeLink disk
link_a = data_link 0 0 (record { mime = none; metadata = none })

get_a : get_mount_link disk vault a with_b ≡ ok link_a
unfolding add mkdir rm mv set_node_link_at_path get_at cat
get_a = refl

cat-add_example : cat disk vault b with_b ≡ ok (Blob.content 20)
cat-add_example = cat-add disk vault store_laws codec_laws b (Blob.content 20) with_d with_b run_add

cat-add-apart_example : cat disk vault a with_b ≡ ok (Blob.content 10)
cat-add-apart_example =
    cat-add-apart disk vault store_laws codec_laws b a (Blob.content 20) (Blob.content 10) with_d
      with_b run_add (unfold apart lex in refl) run_cat_before

get-rm_example :
    (link : NodeLink disk) × (get_mount_link disk vault b with_b ≡ ok link)
    × (to_option (get_mount_link disk vault b without_b) ≡ none)
    × (without_b.inner.ops_log
        ≡ (record_op with_b.inner.peer_id OpType.remove b none
            (is_dir_link disk link)
            with_b.inner.ops_log).0)
get-rm_example = get-rm disk vault store_laws codec_laws b with_b without_b root_b-IsValid run_rm

get-mv_example :
    (link : NodeLink disk) × (get_mount_link disk vault a with_b ≡ ok link)
    × (get_mount_link disk vault c moved ≡ ok link)
    × (to_option (get_mount_link disk vault a moved) ≡ none)
    × (moved.inner.ops_log
        ≡ (record_op with_b.inner.peer_id
            (OpType.mv a)
            c
            none
            (is_dir_link disk link)
            with_b.inner.ops_log).0)
get-mv_example = get-mv disk vault store_laws codec_laws a c with_b moved root_b-IsValid run_mv

abbrev link_b : NodeLink disk
link_b = data_link 4 8 (record { mime = none; metadata = none })

get_b : get_mount_link disk vault b with_b ≡ ok link_b
unfolding add mkdir rm mv set_node_link_at_path get_at cat
get_b = refl

-- A path below d whose parent is missing.
abbrev deep : FilePath
deep = (4 ∷ []) ∷ (6 ∷ []) ∷ []

set_node_link_at_path_lem_example :
    (IsOpen disk vault deep with_b.inner.entry with_b.world.store
      × (w' : World disk vault) × (l : NodeLink disk) × (created : List ℕ) × (root : Node disk)
      × (set_node_link_at_path disk vault with_b.inner.entry link_a
            (deep ++ (3 ∷ []) ∷ [])
            with_b.world
          ≡ (w', ok (l, created)))
      × (is_dir_link disk l ≡ true)
      × (get_node_from_blobs disk vault l w'.store ≡ ok root)
      × (seek disk vault (deep ++ (3 ∷ []) ∷ []) root w'.store ≡ some link_a)
      × ((q : FilePath)
          → apart (deep ++ (3 ∷ []) ∷ []) q ≡ true
          → seek disk vault q root w'.store ≡ seek disk vault q with_b.inner.entry w'.store)
      × Extends disk vault with_b.world.store w'.store)
    ⊎ ((¬ IsOpen disk vault deep with_b.inner.entry with_b.world.store)
        × (e : MountError disk) × (set_node_link_at_path disk vault with_b.inner.entry link_a
              (deep ++ (3 ∷ []) ∷ [])
              with_b.world
            ≡ (with_b.world, err e)))
set_node_link_at_path_lem_example =
    set_node_link_at_path_lem disk vault store_laws codec_laws write_laws with_b.inner.entry link_a
      deep (3 ∷ []) with_b.world root_b-IsValid

-- The nodes on the way to d.
abbrev visited_nodes : List (FilePath × Node disk)
visited_nodes = elim (descend disk vault [] with_d.inner.entry [] d with_d.world.store) [
  | ok nodes ↦ nodes
  | err e ↦ []
]

run_descend : descend disk vault [] with_d.inner.entry [] d with_d.world.store ≡ ok visited_nodes
unfolding add mkdir rm mv set_node_link_at_path get_at cat
run_descend = refl

root_d-IsValid : IsValid disk with_d.inner.entry
unfolding add mkdir rm mv set_node_link_at_path get_at cat
root_d-IsValid = ((refl, tt), (tt, tt))

add_succeeds_example :
    (s' : Session disk vault) × (add disk vault (d ++ (2 ∷ []) ∷ []) (Blob.content 20) with_d
      ≡ (s', ok tt))
add_succeeds_example =
    add_succeeds disk vault store_laws codec_laws write_laws d (2 ∷ []) (Blob.content 20)
      visited_nodes with_d root_d-IsValid run_descend
