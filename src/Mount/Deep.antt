-- ===== src/Mount/Deep.antt =====
-- crates/common/src/mount/mount_inner.rs, `ls_deep`. The depth of the tree bounds the recursion, which
-- is given fuel.
use jax_fs.Prelude.{ℕ, zero, suc, Bool, true, false, Option, none, some, [], ◌∷◌, unwrap_or}
use jax_fs.Prelude.Results
use jax_fs.Prelude.Results.{Result, ok, err}
use jax_fs.Ord.{u64_ord, ◌==◌}
use jax_fs.Ord.Lex.{lex, lex_ord}
use jax_fs.BTreeMap.{BTreeMap, insert}
use jax_fs.FilePath.{FilePath}
use jax_fs.Manifest.Platform.{Platform}
use jax_fs.Mount.Node.{NodeLink, is_dir_link}
use jax_fs.Mount.Vault.{Vault}
use jax_fs.Mount.Blobs.{MountError}
use jax_fs.Mount.Session.{Session, ls}

-- `Path::strip_prefix`
unfoldable pub strip_prefix : FilePath → FilePath → Option FilePath
unfolding lex
strip_prefix path [] = some path
strip_prefix [] (n ∷ base) = none
strip_prefix (m ∷ path) (n ∷ base) =
    let rest = strip_prefix path base in elim (m == n) [ true ↦ rest | false ↦ none ]

module _ (p : Platform) (v : Vault p) where
  abbrev pub Items : Type 0
  Items = BTreeMap FilePath (NodeLink p)

  unfoldable pub insert_all : Items → Items → Items
  unfolding insert lex
  insert_all [] items = items
  insert_all ((path, link) ∷ more) items = insert_all more (insert path link items)

  -- What a directory adds: the items below it.
  unfoldable pub sub_items :
      Bool → FilePath → (FilePath → Result (MountError p) Items) → Result (MountError p) Items
  sub_items true path list = list path
  sub_items false path list = ok []

  unfoldable pub list_items :
      Items
      → FilePath
      → (FilePath → Result (MountError p) Items)
      → Items
      → Result (MountError p) Items
  unfolding insert lex insert_all strip_prefix sub_items
  list_items [] base list all_items = ok all_items
  list_items ((item_path, link) ∷ items) base list all_items =
      Results.◌>>=◌ (sub_items (is_dir_link p link) item_path list) λ below.
        list_items items base list (
          insert_all below
            (insert (unwrap_or (strip_prefix item_path base) item_path) link all_items))

  unfoldable pub ls_deep_at : ℕ → FilePath → FilePath → Session p v → Result (MountError p) Items
  unfolding ls list_items
  ls_deep_at zero path base s = err MountError.out_of_fuel
  ls_deep_at (suc fuel) path base s =
      Results.◌>>=◌ (ls p v path s)
        (λ items. list_items items base (λ sub. ls_deep_at fuel sub base s) [])

  unfoldable pub ls_deep : ℕ → FilePath → Session p v → Result (MountError p) Items
  unfolding ls_deep_at
  ls_deep fuel path s = ls_deep_at fuel path path s
