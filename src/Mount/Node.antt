-- ===== src/Mount/Node.antt =====
-- crates/common/src/mount/node.rs: the nodes of the file tree.
use jax_fs.Prelude.{ℕ, Bool, true, false, Option, none, some, [], length, unwrap_or}
use jax_fs.Ord.{u64_ord}
use jax_fs.Ord.Lex.{lex, lex_ord}
use jax_fs.BTreeMap.{BTreeMap, get, insert, remove}
use jax_fs.BTreeMap.Sorted.{IsSorted}
use jax_fs.FilePath.{Name}
use jax_fs.Manifest.Platform.{Platform}

-- `metadata` is there once something is set.
pub record Data (p : Platform) : Type 0 where
  pub mime : Option p.Mime
  pub metadata : Option (BTreeMap Name p.LinkedData)

pub data NodeLink (p : Platform) : Type 0 where
  data_link : p.Link → p.Secret → Data p → NodeLink p
  dir_link : p.Link → p.Secret → NodeLink p

pub record Node (p : Platform) : Type 0 where
  pub links : BTreeMap Name (NodeLink p)

module _ (p : Platform) where
  -- `Data::new`
  abbrev pub plain_data : Data p
  plain_data = record { mime = none; metadata = none }

  -- `Data::from_path`, given the type that the extension of the path stands for.
  abbrev pub data_of_mime : Option p.Mime → Data p
  data_of_mime mime = record { mime = mime; metadata = none }

  unfoldable pub set_metadata : Name → p.LinkedData → Data p → Data p
  unfolding insert lex
  set_metadata key value d = record d {
    metadata = some (insert key value (unwrap_or d.metadata []));
  }

  unfoldable pub new_data : p.Link → p.Secret → NodeLink p
  new_data link secret = data_link link secret plain_data

  abbrev pub link_of : NodeLink p → p.Link
  link_of (data_link link _ _) = link
  link_of (dir_link link _) = link

  abbrev pub secret_of : NodeLink p → p.Secret
  secret_of (data_link _ secret _) = secret
  secret_of (dir_link _ secret) = secret

  abbrev pub data_of : NodeLink p → Option (Data p)
  data_of (data_link _ _ d) = some d
  data_of (dir_link _ _) = none

  abbrev pub is_dir_link : NodeLink p → Bool
  is_dir_link (data_link _ _ _) = false
  is_dir_link (dir_link _ _) = true

  abbrev pub is_data_link : NodeLink p → Bool
  is_data_link (data_link _ _ _) = true
  is_data_link (dir_link _ _) = false

  -- `Node::new`, `Node::default`
  abbrev pub new_node : Node p
  new_node = record { links = [] }

  -- The names are sorted, as in every `BTreeMap`.
  abbrev pub IsValid : Node p → Type 0
  IsValid node = IsSorted node.links

  unfoldable pub get_link : Name → Node p → Option (NodeLink p)
  unfolding get lex
  get_link name node = get name node.links

  unfoldable pub insert_link : Name → NodeLink p → Node p → Node p
  unfolding insert lex
  insert_link name link node = record { links = insert name link node.links }

  unfoldable pub del_link : Name → Node p → Node p
  unfolding remove lex
  del_link name node = record { links = remove name node.links }

  unfoldable pub size : Node p → ℕ
  size node = length node.links
