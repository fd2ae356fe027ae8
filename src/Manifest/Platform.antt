-- ===== src/Manifest/Platform.antt =====
-- What manifests take from third-party crates: identifiers, keys and their hexadecimal text, Ed25519
-- signatures, and encrypted secrets.
use jax_fs.Prelude.{◌≡◌, Bool, true}
use jax_fs.FilePath.{Name}

pub record Platform : Type 1 where
  pub Uuid : Type 0
  pub Key : Type 0
  pub SecretKey : Type 0
  pub Signature : Type 0
  pub Secret : Type 0
  pub SecretShare : Type 0
  pub Link : Type 0
  pub Version : Type 0
  pub Bytes : Type 0
  pub Mime : Type 0
  pub LinkedData : Type 0
  pub to_hex : Key → Name
  pub public_key : SecretKey → Key
  pub sign_bytes : SecretKey → Bytes → Signature
  pub verify_bytes : Key → Bytes → Signature → Bool

-- Ed25519: a signature verifies under the public key of the key that made it.
pub record SignatureLaws (p : Platform) : Type 0 where
  pub verify_sign :
      (k : p.SecretKey) (b : p.Bytes) → p.verify_bytes (p.public_key k) b (p.sign_bytes k b) ≡ true
