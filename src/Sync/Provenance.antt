-- ===== src/Sync/Provenance.antt =====
-- crates/common/src/peer/sync/sync_bucket.rs: who may have written a manifest, and who may have it.
use jax_fs.Prelude.{Bool, true, false, not, Option, none, some, any, if◌then◌else◌}
use jax_fs.Prelude.Results.{Result, ok, err, ok_or, ◌>>=◌}
use jax_fs.Ord.{u64_ord, ◌==◌}
use jax_fs.Ord.Lex.{lex, lex_ord}
use jax_fs.BTreeMap.{get, keys}
use jax_fs.Manifest.Platform.{Platform}
use jax_fs.Manifest.Types.{Manifest, Shares, PrincipalRole, is_signed, same_role}
use jax_fs.Manifest.Signing.{ManifestError, verify_signature}

pub data ProvenanceResult : Type 0 where
  valid not_authorized unsigned_legacy : ProvenanceResult

-- The reason of an error in a chain is the error itself, which the code keeps as its text.
pub data ProvenanceError (p : Platform) : Type 0 where
  invalid_signature author_not_in_shares author_not_writer : ProvenanceError p
  invalid_manifest_in_chain : p.Link → ProvenanceError p → ProvenanceError p

module _ (p : Platform) where
  -- The `match` on `verify_signature`.
  unfoldable pub check_signature : Result ManifestError Bool → Result (ProvenanceError p) (Unit {0})
  check_signature (ok true) = ok tt
  check_signature (ok false) = err ProvenanceError.invalid_signature
  check_signature (err e) = err ProvenanceError.invalid_signature

  -- The shares of the manifest before, where there is one.
  unfoldable pub check_shares : Manifest p → Option (Manifest p) → Shares p
  check_shares manifest none = manifest.shares
  check_shares manifest (some previous) = previous.shares

  -- Steps 3 and 4. The case of no author, at which the code would panic, is not reached: the
  -- manifest is signed.
  unfoldable pub check_writer :
      Option p.Key → Shares p → Result (ProvenanceError p) ProvenanceResult
  unfolding get lex same_role
  check_writer none shares = err ProvenanceError.author_not_in_shares
  check_writer (some author) shares = do
    author_share ← ok_or (get (p.to_hex author) shares) ProvenanceError.author_not_in_shares
    if not (same_role author_share.principal.role PrincipalRole.owner)
        then err ProvenanceError.author_not_writer
        else ok ProvenanceResult.valid

module _ (p : Platform) (encode : Manifest p → Option p.Bytes) where
  unfoldable pub verify_author :
      Manifest p → Option (Manifest p) → Result (ProvenanceError p) ProvenanceResult
  unfolding is_signed check_signature check_shares check_writer verify_signature
  verify_author manifest previous =
      if not (is_signed p manifest)
      then ok ProvenanceResult.unsigned_legacy
      else (check_signature p (verify_signature p encode manifest) >>= λ _.
          check_writer p manifest.author (check_shares p manifest previous))

  unfoldable pub verify_provenance :
      p.Key → Manifest p → Option (Manifest p) → Result (ProvenanceError p) ProvenanceResult
  unfolding verify_author any keys lex
  verify_provenance our_pub_key manifest previous =
      if not (any (λ key_hex. key_hex == p.to_hex our_pub_key) (keys manifest.shares))
      then ok ProvenanceResult.not_authorized
      else verify_author manifest previous
