-- ===== src/Mount/Shares.antt =====
-- The shares of an owner after a `save`, and what its signature leaves of a manifest.
use jax_fs.Prelude.{
  ◌+◌, ◌≡◌, refl, sym, ◌∙◌, ap, subst, none, some, [], ◌∷◌, arith, Option-cases, Bool-cases, inl,
  inr,
}
use jax_fs.Prelude.Results.{ok, ok_or}
use jax_fs.Ord.{u64_ord, ◌==◌}
use jax_fs.Ord.Lex.{lex_ord}
use jax_fs.BTreeMap.{get, get-cons}
use jax_fs.FilePath.{Name}
use jax_fs.PathOps.Op.{op_id_ord}
use jax_fs.Manifest.Platform.{Platform}
use jax_fs.Manifest.Types.{PrincipalRole, Share, Shares, Manifest, set_share}
use jax_fs.Manifest.Signing.{sign, store_signature}
use jax_fs.Mount.Vault.{Vault, StoreLaws, CodecLaws}
use jax_fs.Mount.Act.{after-eq-ok, give-eq-ok}
use jax_fs.Mount.Blobs.{MountError, World}
use jax_fs.Mount.Grows.{Grows, Grows-after, Grows-still, pure-Grows}
use jax_fs.Mount.Save.{new_share, reshare_one, reshare, sign_manifest}

module _ (p : Platform) (v : Vault p) (sl : StoreLaws p v) where
  new_share-Grows : (k : p.Secret) (key : p.Key) → Grows p v sl (new_share p v k key)
  unfolding new_share
  new_share-Grows k key = Grows-still p v sl (λ w. refl)

  reshare_one-Grows :
      (k : p.Secret) (role : PrincipalRole) (share : Share p)
      → Grows p v sl (reshare_one p v k role share)
  unfolding reshare_one
  reshare_one-Grows k PrincipalRole.owner share =
      Grows-after p v sl (new_share-Grows k share.principal.identity)
        (λ s. pure-Grows p v sl (set_share p s share))
  reshare_one-Grows k PrincipalRole.mirror share = pure-Grows p v sl share

  pub reshare-Grows : (k : p.Secret) (shares : Shares p) → Grows p v sl (reshare p v k shares)
  unfolding reshare
  reshare-Grows k [] = pure-Grows p v sl []
  reshare-Grows k ((key, share) ∷ shares) =
      Grows-after p v sl (reshare_one-Grows k share.principal.role share) (λ first.
        Grows-after p v sl (reshare-Grows k shares)
          (λ rest. pure-Grows p v sl ((key, first) ∷ rest)))

  -- A manifest that is signed is the one to sign but for its author and signature.
  pub sign_manifest-eq :
      (key : p.SecretKey) (m m' : Manifest p)
      → sign_manifest p v key m ≡ ok m'
      → m' ≡ record m { author = m'.author; signature = m'.signature }
  unfolding sign_manifest sign store_signature
  sign_manifest-eq key m m' e = elim (Option-cases (v.encode_manifest unsigned)) [
    | inl n ↦ absurd (ground (arith, n, e))
    | inr (b, f) ↦
        let m1 : Manifest p = record unsigned { signature = some (p.sign_bytes key b) } in
        let same : m1 ≡ m' = ground (arith, f, e) in
        subst (λ x. x ≡ record m { author = x.author; signature = x.signature }) same refl
  ]
    where
      unsigned : Manifest p
      unsigned = record m { author = some (p.public_key key); signature = none }

module _ (p : Platform) (v : Vault p) (sl : StoreLaws p v) (cl : CodecLaws p v) where
  -- An owner's share of the new secret gives it to the key that it is for.
  reshare_one-recover :
      (k : p.Secret) (share first : Share p) (key : p.SecretKey) (w w' : World p v)
      → share.principal.identity ≡ p.public_key key
      → reshare_one p v k PrincipalRole.owner share w ≡ (w', ok first)
      → (first.principal ≡ share.principal)
        × ((s : p.SecretShare) × (first.share ≡ some s) × (v.recover s key ≡ some k))
  unfolding reshare_one new_share set_share
  reshare_one-recover k share first key w w' i e =
      let (s, e1, f1) =
        give-eq-ok (ok_or (v.new_share w.draws k share.principal.identity) MountError.share_failed)
          (record w { draws = w.draws + 1 }) _ e in
      let made : v.new_share w.draws k (p.public_key key) ≡ some s = ground (arith, e1, i) in
      let same : set_share p s share ≡ first = ground (arith, f1) in
      (
        ap (λ x. x.principal) (sym same),
        (s, ap (λ x. x.share) (sym same), cl.recover-new_share w.draws k key s made),
      )

  pub reshare-recover :
      (k : p.Secret) (shares shares' : Shares p) (name : Name) (share : Share p) (key : p.SecretKey)
      (w w' : World p v)
      → share.principal.role ≡ PrincipalRole.owner
      → share.principal.identity ≡ p.public_key key
      → get name shares ≡ some share
      → reshare p v k shares w ≡ (w', ok shares')
      → (first : Share p) × (get name shares' ≡ some first)
        × (first.principal ≡ share.principal)
        × ((s : p.SecretShare) × (first.share ≡ some s) × (v.recover s key ≡ some k))
  unfolding reshare
  reshare-recover k [] shares' name share key w w' r i g e =
      absurd (unfold get in ground (arith, g))
  reshare-recover k ((n, sh) ∷ shares) shares' name share key w w' r i g e =
      let (w1, first, e1, f1) = after-eq-ok (reshare_one p v k sh.principal.role sh w) _ e in
      let (w2, rest, e2, f2) = after-eq-ok (reshare p v k shares w1) _ f1 in
      let all : (n, first) ∷ rest ≡ shares' = ground (arith, f2) in
      let g' = sym (get-cons name n sh shares) ∙ g in
      subst
        (λ x.
          (y : Share p) × (get name x ≡ some y)
          × (y.principal ≡ share.principal)
          × ((s : p.SecretShare) × (y.share ≡ some s) × (v.recover s key ≡ some k)))
        all
        elim (Bool-cases (name == n)) [
          | inl b ↦
              let same : sh ≡ share = ground (arith, b, g') in
              let e3 : reshare_one p v k PrincipalRole.owner share w ≡ (w1, ok first) =
                subst (λ x. reshare_one p v k x share w ≡ (w1, ok first)) r
                  (subst (λ x. reshare_one p v k x.principal.role x w ≡ (w1, ok first)) same e1) in
              let (a, c) = reshare_one-recover k share first key w w1 i e3 in
              (first, get-cons name n first rest ∙ rw b refl, a, c)
          | inr b ↦
              let there : get name shares ≡ some share = ground (arith, b, g') in
              let (y, h, a, c) = reshare-recover k shares rest name share key w1 w2 r i there e2 in
              (y, get-cons name n first rest ∙ ground (arith, b, h), a, c)
        ]
