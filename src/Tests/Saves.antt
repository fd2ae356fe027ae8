-- ===== src/Tests/Saves.antt =====
-- A mount on a small disk is saved and loaded by its owner.
use jax_fs.Prelude.{◌+◌, ◌%◌, ◌≡◌, refl, false, none, some, [], ◌∷◌, u64_mod}
use jax_fs.Prelude.Results.{ok}
use jax_fs.Ord.{u64_ord}
use jax_fs.Ord.Lex.{lex_ord}
use jax_fs.PathOps.Op.{op_id_ord}
use jax_fs.PathOps.Log.{new}
use jax_fs.Manifest.Types.{PrincipalRole, Share, get_share}
use jax_fs.Mount.Node.{new_node}
use jax_fs.Mount.Session.{MountInner, Session}
use jax_fs.Mount.Files.{add}
use jax_fs.Mount.Save.{save, load}
use jax_fs.Mount.Saved.{load-save}
use jax_fs.Tests.Disk.{Blob, disk, vault}
use jax_fs.Tests.DiskLaws.{store_laws, codec_laws}

abbrev pub owner : Share disk
owner = record { principal = record { role = PrincipalRole.owner; identity = 7 }; share = some 0 }

abbrev pub mount : Session disk vault
mount = record {
  inner = record {
    link = 0;
    manifest = record {
      id = 5;
      name = [];
      height = 0;
      version = 0;
      shares = (7 ∷ [], owner) ∷ [];
      entry = 0;
      pins = 0;
      previous = none;
      ops_log = none;
      public = none;
      author = none;
      signature = none;
    };
    entry = new_node disk;
    pins = [];
    height = 0;
    ops_log = new;
    peer_id = 7;
    secret_key = 7;
  };
  world = record { store = []; draws = 0 };
}

abbrev changed : Session disk vault
changed = (add disk vault ((1 ∷ []) ∷ []) (Blob.content 10) mount).0

abbrev saved : Session disk vault
saved = (save disk vault false changed).0

run_save : save disk vault false changed ≡ (saved, ok (5, 0, 1))
unfolding save add
run_save = refl

owner_share :
    get_share disk (disk.public_key changed.inner.secret_key) changed.inner.manifest ≡ some owner
unfolding add get_share
owner_share = refl

identity : owner.principal.identity ≡ disk.public_key changed.inner.secret_key
unfolding add
identity = refl

load-save_example :
    (loaded : MountInner disk vault) × (load disk vault 5 changed.inner.secret_key saved.world.store
      ≡ ok loaded)
    × (loaded.entry ≡ changed.inner.entry)
    × (loaded.ops_log.operations ≡ changed.inner.ops_log.operations)
    × (loaded.manifest ≡ saved.inner.manifest)
    × (loaded.height ≡ 1)
    × (1 ≡ (changed.inner.height + 1) % u64_mod)
    × (loaded.manifest.previous ≡ some changed.inner.link)
load-save_example =
    load-save disk vault store_laws codec_laws false changed saved (5, 0, 1) owner owner_share refl
      identity run_save
