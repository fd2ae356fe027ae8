-- ===== src/Manifest/Signing.antt =====
-- crates/common/src/mount/manifest.rs: signing and verification. The encoder, DAG-CBOR by a
-- third-party crate, is a parameter that may fail.
use jax_fs.Prelude.{Bool, true, false, Option, none, some}
use jax_fs.Prelude.Results.{Result, ok, err, ok_or, ◌>>=◌}
use jax_fs.Manifest.Platform.{Platform}
use jax_fs.Manifest.Types.{Manifest}

pub data ManifestError : Type 0 where
  codec signature_verification_failed : ManifestError

module _ (p : Platform) (encode : Manifest p → Option p.Bytes) where
  unfoldable pub signable_bytes : Manifest p → Result ManifestError p.Bytes
  signable_bytes m = ok_or (encode (record m { signature = none })) ManifestError.codec

  -- The manifest after the call: where the encoder fails, its author is set and its signature gone.
  unfoldable pub store_signature :
      p.SecretKey
      → Manifest p
      → Result ManifestError p.Bytes
      → Manifest p × Result ManifestError (Unit {0})
  store_signature secret_key m (err e) = (m, err e)
  store_signature secret_key m (ok bytes) =
      (record m { signature = some (p.sign_bytes secret_key bytes) }, ok tt)

  unfoldable pub sign : p.SecretKey → Manifest p → Manifest p × Result ManifestError (Unit {0})
  unfolding signable_bytes store_signature
  sign secret_key m =
      let m' : Manifest p = record m {
        author = some (p.public_key secret_key);
        signature = none;
      } in
      store_signature secret_key m' (signable_bytes m')

  unfoldable pub accept : Bool → Result ManifestError Bool
  accept true = ok true
  accept false = err ManifestError.signature_verification_failed

  unfoldable pub verify_with :
      Option p.Key → Option p.Signature → Manifest p → Result ManifestError Bool
  unfolding signable_bytes accept
  verify_with (some author) (some signature) m = do
    bytes ← signable_bytes m
    accept (p.verify_bytes author bytes signature)
  verify_with _ _ m = ok false

  unfoldable pub verify_signature : Manifest p → Result ManifestError Bool
  unfolding verify_with
  verify_signature m = verify_with m.author m.signature m
