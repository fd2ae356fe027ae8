-- ===== src/Tests/Disk.antt =====
-- A vault on a list of blobs, which a mount can stand on: a hash is a position in the list, and a node
-- is encoded by its entries, where their names are sorted.
use Prim.Native.Nat.Ordering.{lt}
use jax_fs.Prelude.{
  ℕ, zero, suc, ◌≡◌, refl, Bool, true, false, Option, none, some, List, [], ◌∷◌, ◌++◌, arith,
  length, if◌then◌else◌,
}
use jax_fs.Ord.{u64_ord, ◌==◌}
use jax_fs.Ord.Lex.{lex_ord}
use jax_fs.BTreeMap.{BTreeMap}
use jax_fs.BTreeMap.Sorted.{IsSorted, Above}
use jax_fs.FilePath.{Name}
use jax_fs.PathOps.Log.{PathOpLog}
use jax_fs.Manifest.Types.{PrincipalRole, Share, Shares, Manifest}
use jax_fs.Manifest.Platform.{Platform}
use jax_fs.Mount.Node.{Node, NodeLink, data_link, dir_link}
use jax_fs.Mount.Vault.{Vault}

pub data Entry : Type 0 where
  file : ℕ → ℕ → Option ℕ → Option (BTreeMap Name ℕ) → Entry
  directory : ℕ → ℕ → Entry

pub data Part : Type 0 where
  part : PrincipalRole → ℕ → Option ℕ → Part

pub data Blob : Type 0 where
  version :
      ℕ
      → Name
      → ℕ
      → ℕ
      → BTreeMap Name Part
      → ℕ
      → ℕ
      → Option ℕ
      → Option ℕ
      → Option ℕ
      → Option ℕ
      → Option (ℕ × ℕ)
      → Blob
  operations : PathOpLog ℕ ℕ → Blob
  content : ℕ → Blob
  entries : BTreeMap Name Entry → Blob
  locked : ℕ → Blob → Blob
  positions : List ℕ → Blob

abbrev pub disk : Platform
disk = record {
  Uuid = ℕ;
  Key = ℕ;
  SecretKey = ℕ;
  Signature = ℕ × ℕ;
  Secret = ℕ;
  SecretShare = ℕ;
  Link = ℕ;
  Version = ℕ;
  Bytes = Blob;
  Mime = ℕ;
  LinkedData = ℕ;
  to_hex = λ k. k ∷ [];
  public_key = λ k. k;
  sign_bytes = λ k b. (k, k);
  verify_bytes = λ k b s. true;
}

abbrev pub to_entry : NodeLink disk → Entry
to_entry (data_link l k d) = file l k d.mime d.metadata
to_entry (dir_link l k) = directory l k

abbrev pub of_entry : Entry → NodeLink disk
of_entry (file l k mime metadata) = data_link l k (record { mime = mime; metadata = metadata })
of_entry (directory l k) = dir_link l k

of_entry-to_entry : (l : NodeLink disk) → of_entry (to_entry l) ≡ l
of_entry-to_entry (data_link l k d) = refl
of_entry-to_entry (dir_link l k) = refl

abbrev pub to_entries : BTreeMap Name (NodeLink disk) → BTreeMap Name Entry
to_entries [] = []
to_entries ((n, l) ∷ links) = (n, to_entry l) ∷ to_entries links

abbrev pub of_entries : BTreeMap Name Entry → BTreeMap Name (NodeLink disk)
of_entries [] = []
of_entries ((n, l) ∷ links) = (n, of_entry l) ∷ of_entries links

pub of_entries-to_entries :
    (links : BTreeMap Name (NodeLink disk)) → of_entries (to_entries links) ≡ links
of_entries-to_entries [] = refl
of_entries-to_entries ((n, l) ∷ links) = rw (of_entry-to_entry l, of_entries-to_entries links) refl

abbrev pub is_above : Name → BTreeMap Name (NodeLink disk) → Bool
is_above n [] = true
is_above n ((m, l) ∷ links) =
    let rest = is_above n links in elim (lex_ord.cmp n m) [ lt ↦ rest | _ ↦ false ]

abbrev pub is_sorted : BTreeMap Name (NodeLink disk) → Bool
is_sorted [] = true
is_sorted ((n, l) ∷ links) = let rest = is_sorted links in if is_above n links then rest else false

pub is_above-Above :
    (n : Name) (links : BTreeMap Name (NodeLink disk)) → is_above n links ≡ true → Above n links
is_above-Above n [] h = tt
is_above-Above n ((m, l) ∷ links) h = ground (arith, h, is_above-Above n links)

pub is_sorted-IsSorted :
    (links : BTreeMap Name (NodeLink disk)) → is_sorted links ≡ true → IsSorted links
is_sorted-IsSorted [] h = tt
is_sorted-IsSorted ((n, l) ∷ links) h =
    ground (arith, h, is_above-Above n links, is_sorted-IsSorted links)

abbrev pub get_blob : ℕ → List Blob → Option Blob
get_blob h [] = none
get_blob zero (b ∷ s) = some b
get_blob (suc h) (b ∷ s) = get_blob h s

abbrev pub encode_entries : BTreeMap Name (NodeLink disk) → Option Blob
encode_entries links = if is_sorted links then some (entries (to_entries links)) else none

abbrev pub checked : BTreeMap Name (NodeLink disk) → Option (Node disk)
checked links = if is_sorted links then some (record { links = links }) else none

abbrev pub decode_entries : Blob → Option (Node disk)
decode_entries (entries fs) = checked (of_entries fs)
decode_entries _ = none

abbrev pub unlock : ℕ → Blob → Option Blob
unlock k (locked j b) = if k == j then some b else none
unlock k _ = none

abbrev pub of_positions : Blob → Option (List ℕ)
of_positions (positions hs) = some hs
of_positions _ = none

abbrev pub to_part : Share disk → Part
to_part share = part share.principal.role share.principal.identity share.share

abbrev pub of_part : Part → Share disk
of_part (part role identity share) = record {
  principal = record { role = role; identity = identity };
  share = share;
}

abbrev pub to_parts : Shares disk → BTreeMap Name Part
to_parts [] = []
to_parts ((n, share) ∷ shares) = (n, to_part share) ∷ to_parts shares

abbrev pub of_parts : BTreeMap Name Part → Shares disk
of_parts [] = []
of_parts ((n, share) ∷ shares) = (n, of_part share) ∷ of_parts shares

pub of_parts-to_parts : (shares : Shares disk) → of_parts (to_parts shares) ≡ shares
of_parts-to_parts [] = refl
of_parts-to_parts ((n, share) ∷ shares) = rw (of_parts-to_parts shares) refl

abbrev pub to_version : Manifest disk → Blob
to_version m =
    version m.id m.name m.height m.version (to_parts m.shares) m.entry m.pins m.previous m.ops_log
      m.public m.author m.signature

abbrev pub of_version : Blob → Option (Manifest disk)
of_version
      (version id name height number parts entry pins previous ops_log public author signature) =
    some record {
      id = id;
      name = name;
      height = height;
      version = number;
      shares = of_parts parts;
      entry = entry;
      pins = pins;
      previous = previous;
      ops_log = ops_log;
      public = public;
      author = author;
      signature = signature;
    }
of_version _ = none

pub of_version-to_version : (m : Manifest disk) → of_version (to_version m) ≡ some m
of_version-to_version m = rw (of_parts-to_parts m.shares) refl

abbrev pub of_operations : Blob → Option (PathOpLog ℕ ℕ)
of_operations (operations log) = some (record log { local_clock = 0 })
of_operations _ = none

abbrev pub vault : Vault disk
vault = record {
  Hash = ℕ;
  hash = λ l. l;
  raw_link = λ h. h;
  manifest_link = λ h. h;
  Store = List Blob;
  get = get_blob;
  put = λ b s. (s ++ b ∷ [], some (length s));
  generate = λ n. n;
  encrypt = λ n k b. some (locked k b);
  decrypt = unlock;
  new_share = λ n k key. some k;
  recover = λ share key. some share;
  default_secret = 0;
  default_version = 0;
  mime_of = λ path. none;
  encode_node = λ n. encode_entries n.links;
  decode_node = decode_entries;
  encode_log = λ log. some (operations log);
  decode_log = of_operations;
  encode_manifest = λ m. some (to_version m);
  decode_manifest = of_version;
  encode_hashes = positions;
  decode_hashes = of_positions;
}
