-- ===== src/Mount/Vault.antt =====
-- What a mount takes from the store of blobs and from the crates that encode and encrypt: an
-- interface, and the documented behaviour that the proofs rely on. Randomness is a supply of draws.
use jax_fs.Prelude.{ℕ, ◌≡◌, Option, some, List}
use jax_fs.FilePath.{FilePath}
use jax_fs.PathOps.Log.{PathOpLog}
use jax_fs.Manifest.Platform.{Platform}
use jax_fs.Manifest.Types.{Manifest}
use jax_fs.Mount.Node.{Node, IsValid}

pub record Vault (p : Platform) : Type 1 where
  pub Hash : Type 0
  -- The hash in a link; a link with the codec for raw bytes, and one with that of manifests.
  pub hash : p.Link → Hash
  pub raw_link : Hash → p.Link
  pub manifest_link : Hash → p.Link
  -- The blobs: a write may fail.
  pub Store : Type 0
  pub get : Hash → Store → Option p.Bytes
  pub put : p.Bytes → Store → Store × Option Hash
  -- `Secret::generate`, `encrypt` (with a nonce) and `decrypt`.
  pub generate : ℕ → p.Secret
  pub encrypt : ℕ → p.Secret → p.Bytes → Option p.Bytes
  pub decrypt : p.Secret → p.Bytes → Option p.Bytes
  -- `SecretShare::new` and `recover`.
  pub new_share : ℕ → p.Secret → p.Key → Option p.SecretShare
  pub recover : p.SecretShare → p.SecretKey → Option p.Secret
  pub default_secret : p.Secret
  pub default_version : p.Version
  -- The type that the extension of a path stands for.
  pub mime_of : FilePath → Option p.Mime
  pub encode_node : Node p → Option p.Bytes
  pub decode_node : p.Bytes → Option (Node p)
  pub encode_log : PathOpLog p.Key p.Link → Option p.Bytes
  pub decode_log : p.Bytes → Option (PathOpLog p.Key p.Link)
  pub encode_manifest : Manifest p → Option p.Bytes
  pub decode_manifest : p.Bytes → Option (Manifest p)
  pub encode_hashes : List Hash → p.Bytes
  pub decode_hashes : p.Bytes → Option (List Hash)

-- A blob that is written is there, and no write loses one.
pub record StoreLaws (p : Platform) (v : Vault p) : Type 0 where
  pub hash-raw_link : (h : v.Hash) → v.hash (v.raw_link h) ≡ h
  pub hash-manifest_link : (h : v.Hash) → v.hash (v.manifest_link h) ≡ h
  pub get-put :
      (b : p.Bytes) (s : v.Store) (h : v.Hash)
      → (v.put b s).1 ≡ some h
      → v.get h (v.put b s).0 ≡ some b
  pub get-put_old :
      (b c : p.Bytes) (s : v.Store) (h : v.Hash)
      → v.get h s ≡ some c
      → v.get h (v.put b s).0 ≡ some c

-- What is decrypted under its secret, or decoded, is what was encrypted or encoded. A log comes
-- without its clock.
pub record CodecLaws (p : Platform) (v : Vault p) : Type 0 where
  pub decrypt-encrypt :
      (n : ℕ) (k : p.Secret) (b c : p.Bytes) → v.encrypt n k b ≡ some c → v.decrypt k c ≡ some b
  pub recover-new_share :
      (n : ℕ) (k : p.Secret) (s : p.SecretKey) (share : p.SecretShare)
      → v.new_share n k (p.public_key s) ≡ some share
      → v.recover share s ≡ some k
  pub decode-encode_node :
      (n : Node p) (b : p.Bytes) → v.encode_node n ≡ some b → v.decode_node b ≡ some n
  -- The names of a node are a `BTreeMap`, whatever it was decoded from.
  pub decode_node-IsSorted : (b : p.Bytes) (n : Node p) → v.decode_node b ≡ some n → IsValid p n
  pub decode-encode_log :
      (l : PathOpLog p.Key p.Link) (b : p.Bytes)
      → v.encode_log l ≡ some b
      → v.decode_log b ≡ some (record l { local_clock = 0 })
  pub decode-encode_manifest :
      (m : Manifest p) (b : p.Bytes) → v.encode_manifest m ≡ some b → v.decode_manifest b ≡ some m
  pub decode-encode_hashes : (hs : List v.Hash) → v.decode_hashes (v.encode_hashes hs) ≡ some hs
