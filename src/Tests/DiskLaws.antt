-- ===== src/Tests/DiskLaws.antt =====
-- The small disk keeps the laws of a vault.
use jax_fs.Prelude.{
  ℕ, zero, suc, ◌≡◌, ◌∙◌, refl, ap, sym, subst, Bool-cases, inl, inr, true, some, List, [], ◌∷◌,
  ◌++◌, arith, length,
}
use jax_fs.Ord.{u64_ord, ==_refl}
use jax_fs.Ord.Lex.{lex_ord}
use jax_fs.BTreeMap.{BTreeMap}
use jax_fs.BTreeMap.Sorted.{IsSorted, Above}
use jax_fs.FilePath.{Name}
use jax_fs.Mount.Node.{IsValid, Node, NodeLink}
use jax_fs.Mount.Succeeds.{WriteLaws}
use jax_fs.Mount.Vault.{StoreLaws, CodecLaws}
use jax_fs.Tests.Disk.{
  Blob, checked, decode_entries, disk, encode_entries, get_blob, is_above, is_sorted,
  is_sorted-IsSorted, of_entries, of_entries-to_entries, of_operations, of_version,
  of_version-to_version, to_entries, unlock, vault,
}
use jax_fs.Tests.Disk.Blob.{content, entries, locked, positions, version, operations}

get_blob-put : (b : Blob) (s : List Blob) → get_blob (length s) (s ++ b ∷ []) ≡ some b
get_blob-put b [] = refl
get_blob-put b (c ∷ s) = get_blob-put b s

get_blob-put_old :
    (b c : Blob) (s : List Blob) (h : ℕ) → get_blob h s ≡ some c → get_blob h (s ++ b ∷ []) ≡ some c
get_blob-put_old b c [] h e = cc
get_blob-put_old b c (d ∷ s) zero e = e
get_blob-put_old b c (d ∷ s) (suc h) e = get_blob-put_old b c s h e

pub store_laws : StoreLaws disk vault
store_laws = record {
  hash-raw_link = λ h. refl;
  hash-manifest_link = λ h. refl;
  get-put =
      λ b s h e. let same : some (length s) ≡ some h = e in ground (arith, same, get_blob-put b s);
  get-put_old = λ b c s h e. get_blob-put_old b c s h e;
}

checked-IsSorted :
    (links : BTreeMap Name (NodeLink disk)) (n : Node disk)
    → checked links ≡ some n
    → IsSorted n.links
checked-IsSorted links n h = elim (Bool-cases (is_sorted links)) [
  | inr f ↦ absurd (ground (arith, f, h))
  | inl f ↦
      let same : some (record { links = links }) ≡ some n = ground (arith, f, h) in
      subst (IsValid disk) (ground (arith, same)) (is_sorted-IsSorted links f)
]

decode_entries-IsSorted : (b : Blob) (n : Node disk) → decode_entries b ≡ some n → IsSorted n.links
decode_entries-IsSorted (entries fs) n h = checked-IsSorted (of_entries fs) n h
decode_entries-IsSorted (content x) n h = cc
decode_entries-IsSorted (locked k b) n h = cc
decode_entries-IsSorted (positions hs) n h = cc
decode_entries-IsSorted
      (version id name height number parts entry pins previous ops_log public author signature) n
      h =
    cc
decode_entries-IsSorted (operations log) n h = cc

some_lem : {A : Type 0} {a b : A} → some a ≡ some b → a ≡ b
some_lem h = ground (arith, h)

unlock_locked : (k : ℕ) (b c : Blob) → some (locked k b) ≡ some c → unlock k c ≡ some b
unlock_locked k b c e =
    let there : unlock k (locked k b) ≡ some b = rw (==_refl k) refl in
    let same : locked k b ≡ c = ground (arith, e) in ap (unlock k) (sym same) ∙ there

decode-encode :
    (n : Node disk) (b : Blob) → encode_entries n.links ≡ some b → decode_entries b ≡ some n
decode-encode n b e = elim (Bool-cases (is_sorted n.links)) [
  | inr f ↦ absurd (ground (arith, f, e))
  | inl f ↦
      let same : some (entries (to_entries n.links)) ≡ some b = ground (arith, f, e) in
      let there : decode_entries (entries (to_entries n.links)) ≡ some n =
        rw (of_entries-to_entries n.links, f) refl in
      let eq_blob : entries (to_entries n.links) ≡ b = ground (arith, same) in
      ap decode_entries (sym eq_blob) ∙ there
]

pub codec_laws : CodecLaws disk vault
codec_laws = record {
  decrypt-encrypt = λ n k b c e. unlock_locked k b c e;
  recover-new_share = λ n k s share e. sym e;
  decode-encode_node = λ n b e. decode-encode n b e;
  decode_node-IsSorted = decode_entries-IsSorted;
  decode-encode_log = λ l b e. ap of_operations (sym (some_lem e));
  decode-encode_manifest = λ m b e. ap of_version (sym (some_lem e)) ∙ of_version-to_version m;
  decode-encode_hashes = λ hs. refl;
}

Above-is_above :
    (n : Name) (links : BTreeMap Name (NodeLink disk)) → Above n links → is_above n links ≡ true
Above-is_above n [] h = refl
Above-is_above n ((m, l) ∷ links) h = ground (arith, h, Above-is_above n links)

IsSorted-is_sorted :
    (links : BTreeMap Name (NodeLink disk)) → IsSorted links → is_sorted links ≡ true
IsSorted-is_sorted [] h = refl
IsSorted-is_sorted ((n, l) ∷ links) h =
    ground (arith, h, Above-is_above n links, IsSorted-is_sorted links)

pub write_laws : WriteLaws disk vault
write_laws = record {
  put_some = λ b s. (length s, refl);
  encrypt_some = λ n k b. (locked k b, refl);
  encode_node_some = λ n i. (entries (to_entries n.links), rw (IsSorted-is_sorted n.links i) refl);
}
