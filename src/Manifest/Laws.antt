-- ===== src/Manifest/Laws.antt =====
-- Signing and verification agree, and what a new share changes.
use jax_fs.Prelude.{
  ◌≡◌, true, false, Option, none, some, arith, Option-cases, inl, inr, if◌then◌else◌,
}
use jax_fs.Prelude.Results.{ok, err}
use jax_fs.Ord.{u64_ord, ◌==◌}
use jax_fs.Ord.Lex.{lex_ord}
use jax_fs.BTreeMap.{get-insert}
use jax_fs.Manifest.Platform.{Platform, SignatureLaws}
use jax_fs.Manifest.Types.{Manifest, Share, is_signed, get_share, add_share}
use jax_fs.Manifest.Signing.{ManifestError, sign, verify_signature}

module _ (p : Platform) (encode : Manifest p → Option p.Bytes) (secret_key : p.SecretKey)
    (m : Manifest p) where
  -- What `sign` encodes.
  abbrev unsigned : Manifest p
  unsigned = record m { author = some (p.public_key secret_key); signature = none }

  -- Where signatures verify under the key of their signer: if `sign` succeeds, what it leaves verifies,
  -- is signed, and names the signer; if it fails, what it leaves is unsigned, and verification says so
  -- without an error.
  pub sign_lem :
      SignatureLaws p
      → ((sign p encode secret_key m).1 ≡ ok tt
          → (verify_signature p encode (sign p encode secret_key m).0 ≡ ok true)
            × (is_signed p (sign p encode secret_key m).0 ≡ true)
            × ((sign p encode secret_key m).0.author ≡ some (p.public_key secret_key)))
        × ((e : ManifestError)
            → (sign p encode secret_key m).1 ≡ err e
            → (verify_signature p encode (sign p encode secret_key m).0 ≡ ok false)
              × (is_signed p (sign p encode secret_key m).0 ≡ false))
  unfolding sign verify_signature is_signed
  sign_lem laws = elim (Option-cases (encode unsigned)) [
    | inl n ↦ (λ e. ground (arith, n), λ x e. ground (arith, n))
    | inr (b, s) ↦ (λ e. ground (arith, s, laws.verify_sign secret_key b), λ x e. ground (arith, s))
  ]

module _ (p : Platform) where
  -- After `add_share`, the principal of the share has it, and every key with another hexadecimal
  -- text has the share it had.
  pub get_share-add_share :
      (share : Share p) (key : p.Key) (m : Manifest p)
      → get_share p key (add_share p share m) ≡ (
          if p.to_hex key == p.to_hex share.principal.identity
          then some share
          else get_share p key m)
  unfolding get_share add_share
  get_share-add_share share key m =
      get-insert (p.to_hex share.principal.identity) (p.to_hex key) share m.shares
