-- ===== src/Manifest/Types.antt =====
-- crates/common/src/mount/manifest.rs and principal.rs: shares, manifests, and their setters.
use jax_fs.Prelude.{ℕ, Bool, true, false, ◌&&◌, Option, none, some, List, [], ◌∷◌, filter, is_some}
use jax_fs.Ord.{u64_ord}
use jax_fs.Ord.Lex.{lex, lex_ord}
use jax_fs.BTreeMap.{BTreeMap, get, insert, values}
use jax_fs.FilePath.{Name}
use jax_fs.Manifest.Platform.{Platform}

pub data PrincipalRole : Type 0 where
  owner mirror : PrincipalRole

-- `==` of roles.
unfoldable pub same_role : PrincipalRole → PrincipalRole → Bool
same_role PrincipalRole.owner PrincipalRole.owner = true
same_role PrincipalRole.mirror PrincipalRole.mirror = true
same_role _ _ = false

pub record Principal (p : Platform) : Type 0 where
  pub role : PrincipalRole
  pub identity : p.Key

pub record Share (p : Platform) : Type 0 where
  pub principal : Principal p
  pub share : Option p.SecretShare

abbrev pub Shares : Platform → Type 0
Shares p = BTreeMap Name (Share p)

pub record Manifest (p : Platform) : Type 0 where
  pub id : p.Uuid
  pub name : Name
  pub height : ℕ
  pub version : p.Version
  pub shares : Shares p
  pub entry : p.Link
  pub pins : p.Link
  pub previous : Option p.Link
  pub ops_log : Option p.Link
  pub public : Option p.Secret
  pub author : Option p.Key
  pub signature : Option p.Signature

module _ (p : Platform) where
  unfoldable pub new_owner : p.SecretShare → p.Key → Share p
  new_owner share public_key = record {
    principal = record { role = PrincipalRole.owner; identity = public_key };
    share = some share;
  }

  unfoldable pub new_mirror : p.Key → Share p
  new_mirror public_key = record {
    principal = record { role = PrincipalRole.mirror; identity = public_key };
    share = none;
  }

  unfoldable pub set_share : p.SecretShare → Share p → Share p
  set_share secret s = record s { share = some secret }

  -- `Manifest::new`; the default version is an argument.
  unfoldable pub new_manifest :
      p.Version → p.Uuid → Name → p.Key → p.SecretShare → p.Link → p.Link → ℕ → Manifest p
  unfolding new_owner
  new_manifest version id name owner_key share entry pins height = record {
    id = id;
    name = name;
    height = height;
    version = version;
    shares = (p.to_hex owner_key, new_owner share owner_key) ∷ [];
    entry = entry;
    pins = pins;
    previous = none;
    ops_log = none;
    public = none;
    author = none;
    signature = none;
  }

  unfoldable pub get_share : p.Key → Manifest p → Option (Share p)
  unfolding get lex
  get_share public_key m = get (p.to_hex public_key) m.shares

  unfoldable pub get_shares_by_role : PrincipalRole → Manifest p → List (Share p)
  unfolding filter values same_role
  get_shares_by_role role m = filter (λ s. same_role s.principal.role role) (values m.shares)

  unfoldable pub is_published : Manifest p → Bool
  is_published m = is_some m.public

  unfoldable pub is_signed : Manifest p → Bool
  is_signed m = is_some m.author && is_some m.signature

  unfoldable pub set_entry : p.Link → Manifest p → Manifest p
  set_entry entry m = record m { entry = entry }

  unfoldable pub set_pins : p.Link → Manifest p → Manifest p
  set_pins pins m = record m { pins = pins }

  unfoldable pub set_previous : p.Link → Manifest p → Manifest p
  set_previous previous m = record m { previous = some previous }

  unfoldable pub set_height : ℕ → Manifest p → Manifest p
  set_height height m = record m { height = height }

  unfoldable pub set_ops_log : p.Link → Manifest p → Manifest p
  set_ops_log link m = record m { ops_log = some link }

  unfoldable pub clear_ops_log : Manifest p → Manifest p
  clear_ops_log m = record m { ops_log = none }

  unfoldable pub add_share : Share p → Manifest p → Manifest p
  unfolding insert lex
  add_share share m = record m {
    shares = insert (p.to_hex share.principal.identity) share m.shares;
  }

  unfoldable pub publish : p.Secret → Manifest p → Manifest p
  publish secret m = record m { public = some secret }

  unfoldable pub unpublish : Manifest p → Manifest p
  unpublish m = record m { public = none }
