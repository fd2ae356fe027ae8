-- ===== src/Tests/Durable.antt =====
-- A file of a mount on a small disk is written and flushed by the handlers; then the owner saves the mount and
-- loads it.
use jax_fs.Prelude.{ℕ, ◌≡◌, refl, true, false, some, List, [], ◌∷◌}
use jax_fs.Prelude.Results.{ok}
use jax_fs.Ord.{u64_ord}
use jax_fs.Ord.Lex.{lex_ord}
use jax_fs.FilePath.{Name, FilePath}
use jax_fs.PathOps.Op.{cmp_op_id}
use jax_fs.Manifest.Types.{get_share}
use jax_fs.Mount.Session.{MountInner, Session}
use jax_fs.Mount.Seek.{apart}
use jax_fs.Mount.Files.{add}
use jax_fs.Mount.Save.{save, load}
use jax_fs.Fuse.Volume.{Volume, Octets, mount_volume}
use jax_fs.Fuse.State.{JaxFs, new_fs, to_path}
use jax_fs.Fuse.Content.{write, flush}
use jax_fs.Fuse.Change.{create}
use jax_fs.Fuse.Durable.{content, cat-load-flush}
use jax_fs.Tests.Disk.{Blob, disk, vault}
use jax_fs.Tests.DiskLaws.{store_laws, codec_laws}
use jax_fs.Tests.Volumes.{toy_caches}
use jax_fs.Tests.Saves.{owner, mount}

-- The contents of the disk that are lists of numbers.
abbrev to_numbers : Blob → List ℕ
to_numbers (Blob.positions ns) = ns
to_numbers _ = []

abbrev octets : Octets disk
octets = record { to_octets = to_numbers; of_octets = Blob.positions; to-of = λ bs. refl }

abbrev drive : Volume
drive = mount_volume disk vault octets

abbrev a : Name
a = b'/' ∷ 97 ∷ []

abbrev bytes : List ℕ
bytes = 1 ∷ 2 ∷ 3 ∷ []

abbrev written : JaxFs drive toy_caches
written =
    (write drive toy_caches 1 0 bytes
      (create drive toy_caches 0 1 (some (97 ∷ []))
        (new_fs drive toy_caches mount [] false (some 0))).0).0

abbrev flushed : JaxFs drive toy_caches
flushed = (flush drive toy_caches 2 1 written).0

abbrev saved : Session disk vault
saved = (save disk vault false flushed.mount).0

run_flush : flush drive toy_caches 2 1 written ≡ (flushed, ok tt)
unfolding create new_fs write flush add
run_flush = refl

run_save : save disk vault false flushed.mount ≡ (saved, ok (7, 0, 1))
unfolding create new_fs write flush add save cmp_op_id
run_save = refl

owner_share :
    get_share disk (disk.public_key flushed.mount.inner.secret_key) flushed.mount.inner.manifest
    ≡ some owner
unfolding create new_fs write flush add get_share
owner_share = refl

identity : owner.principal.identity ≡ disk.public_key flushed.mount.inner.secret_key
unfolding create new_fs write flush add
identity = refl

cat-load-flush_example :
    (loaded : MountInner disk vault) × (load disk vault 7 flushed.mount.inner.secret_key
        saved.world.store
      ≡ ok loaded)
    × (content disk vault octets toy_caches
          (to_path a)
          (record { inner = loaded; world = saved.world })
        ≡ some bytes)
    × ((q : FilePath) (other : List ℕ)
        → apart (to_path a) q ≡ true
        → content disk vault octets toy_caches q written.mount ≡ some other
        → content disk vault octets toy_caches q (record { inner = loaded; world = saved.world })
          ≡ some other)
unfolding create new_fs write flush add
cat-load-flush_example =
    cat-load-flush disk vault octets toy_caches store_laws codec_laws a 2 1
      (record { content = bytes; dirty = true }) false written flushed saved (7, 0, 1) owner refl
      refl refl refl run_flush owner_share refl identity run_save
