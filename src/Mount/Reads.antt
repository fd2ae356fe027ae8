-- ===== src/Mount/Reads.antt =====
-- What `save` puts is read back: the log of operations, the pins and the manifest.
use jax_fs.Prelude.{
  ◌≡◌, refl, sym, subst, Bool, true, false, Option, none, some, List, [], ◌∷◌, arith, Option-cases,
  Bool-cases, inl, inr, is_empty,
}
use jax_fs.Prelude.Results.{ok, ok_or}
use jax_fs.Ord.{Ord, u64_ord}
use jax_fs.Ord.Lex.{lex_ord}
use jax_fs.PathOps.Op.{op_id_ord}
use jax_fs.PathOps.Log.{PathOpLog, new, log_is_empty, rebuild_clock}
use jax_fs.Manifest.Platform.{Platform}
use jax_fs.Manifest.Types.{Manifest}
use jax_fs.Mount.Pins.{Pins, to_vec, from_vec, pin}
use jax_fs.Mount.Vault.{Vault, StoreLaws, CodecLaws}
use jax_fs.Mount.Act.{after-eq-ok, give-eq-ok}
use jax_fs.Mount.Blobs.{
  MountError, World, read_blob, get_manifest_from_blobs, get_ops_log_from_blobs,
  get_pins_from_blobs, put_blob, put_ops_log_in_blobs, put_manifest_in_blobs, put_pins_in_blobs,
}
use jax_fs.Mount.Grows.{
  Extends, Grows, Grows-after, Grows-still, pure-Grows, put_blob-Grows, put_secret-Grows,
  read_secret-Extends, read-put_secret,
}
use jax_fs.Mount.Save.{load_ops_log, store_ops_log}

empty_lem : {A : Type 0} (xs : List A) → is_empty xs ≡ true → xs ≡ []
empty_lem [] h = refl
empty_lem (x ∷ xs) h = cc

module _ (p : Platform) (v : Vault p) (sl : StoreLaws p v) where
  pub put_pins-Grows : (pins : Pins v.Hash) → Grows p v sl (put_pins_in_blobs p v pins)
  unfolding put_pins_in_blobs
  put_pins-Grows pins =
      Grows-after p v sl (put_blob-Grows p v sl (v.encode_hashes (to_vec pins)))
        (λ h. pure-Grows p v sl (v.raw_link h))

  -- A blob that is put is read under the link to it.
  read-put_blob :
      (b : p.Bytes) (w w' : World p v) (h : v.Hash) (l : p.Link)
      → put_blob p v b w ≡ (w', ok h)
      → v.hash l ≡ h
      → read_blob p v l w'.store ≡ ok b
  unfolding put_blob read_blob
  read-put_blob b w w' h l e same =
      let put : (v.put b w.store).1 ≡ some h = ground (arith, e) in
      let there = sl.get-put b w.store h put in ground (arith, e, there, same)

  read_blob-Extends :
      (l : p.Link) (b : p.Bytes) (s t : v.Store)
      → Extends p v s t
      → read_blob p v l s ≡ ok b
      → read_blob p v l t ≡ ok b
  unfolding read_blob
  read_blob-Extends l b s t e g = elim (Option-cases (v.get (v.hash l) s)) [
    | inl n ↦ absurd (ground (arith, n, g))
    | inr (c, f) ↦ let f' = e (v.hash l) c f in ground (arith, f, f', g)
  ]

  module _ (cl : CodecLaws p v) where
    pub get-put_manifest :
        (m : Manifest p) (w w' : World p v) (l : p.Link)
        → put_manifest_in_blobs p v m w ≡ (w', ok l)
        → get_manifest_from_blobs p v l w'.store ≡ ok m
    unfolding put_manifest_in_blobs get_manifest_from_blobs
    get-put_manifest m w w' l e =
        let (b, e1, f1) = give-eq-ok (ok_or (v.encode_manifest m) MountError.codec_failed) w _ e in
        let (w1, h, e2, f2) = after-eq-ok (put_blob p v b w) _ f1 in
        let d = cl.decode-encode_manifest m b (ground (arith, e1)) in
        let r = read-put_blob b w w1 h (v.manifest_link h) e2 (sl.hash-manifest_link h) in
        ground (arith, f2, r, d)

    -- The operations of a log come back.
    read-put_ops_log :
        (log : PathOpLog p.Key p.Link) (k : p.Secret) (w w' : World p v) (l : p.Link) (t : v.Store)
        → put_ops_log_in_blobs p v log k w ≡ (w', ok l)
        → Extends p v w'.store t
        → get_ops_log_from_blobs p v l k t ≡ ok (record log { local_clock = 0 })
    unfolding put_ops_log_in_blobs get_ops_log_from_blobs
    read-put_ops_log log k w w' l t e x =
        let (b, f, r) = read-put_secret p v sl cl (v.encode_log log) k w w' l e in
        let r' = read_secret-Extends p v l k b w'.store t x r in
        let d = cl.decode-encode_log log b f in ground (arith, r', d)

  -- The log that is stored is loaded with its operations.
  pub load-store_ops_log :
      (cl : CodecLaws p v) ⦃ko : Ord p.Key⦄ ⦃ho : Ord v.Hash⦄ (log : PathOpLog p.Key p.Link)
      (k : p.Secret) (pins : Pins v.Hash) (w w' : World p v) (r : Option p.Link × Pins v.Hash)
      (t : v.Store)
      → store_ops_log p v (log_is_empty log) log k pins w ≡ (w', ok r)
      → Extends p v w'.store t
      → (log' : PathOpLog p.Key p.Link) × (load_ops_log p v r.0 k t ≡ ok log')
        × (log'.operations ≡ log.operations)
  unfolding store_ops_log log_is_empty load_ops_log rebuild_clock
  load-store_ops_log cl log k pins w w' r t e x = elim (Bool-cases (log_is_empty log)) [
    | inl b ↦
        let e' : (w, ok (none, pins)) ≡ (w', ok r) =
          subst (λ c. store_ops_log p v c log k pins w ≡ (w', ok r)) b e in
        let same : (none, pins) ≡ r = ground (arith, e') in
        (
          new,
          subst (λ y. load_ops_log p v y.0 k t ≡ ok new) same refl,
          sym (empty_lem log.operations b),
        )
    | inr b ↦
        let e' : store_ops_log p v false log k pins w ≡ (w', ok r) =
          subst (λ c. store_ops_log p v c log k pins w ≡ (w', ok r)) b e in
        let (w1, l, e1, f1) = after-eq-ok (put_ops_log_in_blobs p v log k w) _ e' in
        let x' = subst (λ y. Extends p v y.0.store t) (sym f1) x in
        let same : (some l, pin (v.hash l) pins) ≡ r = ground (arith, f1) in
        let read = read-put_ops_log cl log k w w1 l t e1 x' in
        let log' = rebuild_clock (record log { local_clock = 0 }) in
        (log', subst (λ y. load_ops_log p v y.0 k t ≡ ok log') same (rw read refl), refl)
  ]

  pub store_ops_log-Grows :
      ⦃ko : Ord p.Key⦄ ⦃ho : Ord v.Hash⦄ (b : Bool) (log : PathOpLog p.Key p.Link) (k : p.Secret)
      (pins : Pins v.Hash)
      → Grows p v sl (store_ops_log p v b log k pins)
  unfolding store_ops_log put_ops_log_in_blobs
  store_ops_log-Grows true log k pins = pure-Grows p v sl (none, pins)
  store_ops_log-Grows false log k pins =
      Grows-after p v sl (put_secret-Grows p v sl (v.encode_log log) k)
        (λ l. pure-Grows p v sl (some l, pin (v.hash l) pins))

  pub put_manifest-Grows : (m : Manifest p) → Grows p v sl (put_manifest_in_blobs p v m)
  unfolding put_manifest_in_blobs
  put_manifest-Grows m = Grows-after p v sl (Grows-still p v sl (λ w. refl)) (λ b.
      Grows-after p v sl (put_blob-Grows p v sl b) (λ h. pure-Grows p v sl (v.manifest_link h)))

  -- The pins that are stored can be loaded.
  pub get-put_pins :
      (cl : CodecLaws p v) ⦃ho : Ord v.Hash⦄ (pins : Pins v.Hash) (w w' : World p v) (l : p.Link)
      (t : v.Store)
      → put_pins_in_blobs p v pins w ≡ (w', ok l)
      → Extends p v w'.store t
      → get_pins_from_blobs p v l t ≡ ok (from_vec (to_vec pins))
  unfolding put_pins_in_blobs get_pins_from_blobs
  get-put_pins cl pins w w' l t e x =
      let (w1, h, e1, f1) = after-eq-ok (put_blob p v (v.encode_hashes (to_vec pins)) w) _ e in
      let x' = subst (λ y. Extends p v y.0.store t) (sym f1) x in
      let r =
        read-put_blob (v.encode_hashes (to_vec pins)) w w1 h (v.raw_link h) e1
          (sl.hash-raw_link h) in
      let r' = read_blob-Extends (v.raw_link h) (v.encode_hashes (to_vec pins)) w1.store t x' r in
      let d = cl.decode-encode_hashes (to_vec pins) in
      let same : v.raw_link h ≡ l = ground (arith, f1) in
      subst (λ y. get_pins_from_blobs p v y t ≡ ok (from_vec (to_vec pins))) same (rw (r', d) refl)
