-- ===== src/Mount/Grows.antt =====
-- No effect on the blobs loses one.
use jax_fs.Prelude.{
  ◌≡◌, refl, subst, inl, inr, Option-cases, Option, none, some, List, [], ◌∷◌, ◌++◌, arith,
}
use jax_fs.Prelude.Results.{Result, ok, err, Result-cases}
use jax_fs.FilePath.{Name, FilePath}
use jax_fs.Manifest.Platform.{Platform}
use jax_fs.Mount.Node.{Node, NodeLink, dir_link, link_of, secret_of, insert_link, get_link}
use jax_fs.Mount.Vault.{Vault, StoreLaws, CodecLaws}
use jax_fs.Mount.Act.{pure, ◌>>=◌, after, after-eq-ok}
use jax_fs.Mount.Blobs.{
  MountError, World, Effect, read_blob, read_secret, get_node_from_blobs, generate_secret, encrypt,
  put_blob, put_secret, put_node_in_blobs,
}
use jax_fs.Mount.Walk.{enter, store_dir}
use jax_fs.Mount.Tree.{set_at}

module _ (p : Platform) (v : Vault p) where
  -- Every blob of the first store is in the second.
  abbrev pub Extends : v.Store → v.Store → Type 0
  Extends s s' = (h : v.Hash) (b : p.Bytes) → v.get h s ≡ some b → v.get h s' ≡ some b

  pub Extends-trans : (s t u : v.Store) → Extends s t → Extends t u → Extends s u
  Extends-trans s t u e f h b g = f h b (e h b g)

  -- What is read stays readable.
  pub read_secret-Extends :
      (l : p.Link) (k : p.Secret) (b : p.Bytes) (s t : v.Store)
      → Extends s t
      → read_secret p v l k s ≡ ok b
      → read_secret p v l k t ≡ ok b
  unfolding read_secret read_blob
  read_secret-Extends l k b s t e g = elim (Option-cases (v.get (v.hash l) s)) [
    | inl n ↦ absurd (ground (arith, n, g))
    | inr (c, f) ↦ let f' = e (v.hash l) c f in ground (arith, f, f', g)
  ]

  pub get_node-Extends :
      (l : NodeLink p) (n : Node p) (s t : v.Store)
      → Extends s t
      → get_node_from_blobs p v l s ≡ ok n
      → get_node_from_blobs p v l t ≡ ok n
  unfolding get_node_from_blobs
  get_node-Extends l n s t e g =
      elim (Result-cases (read_secret p v (link_of p l) (secret_of p l) s)) [
        | inr (x, f) ↦ absurd (ground (arith, f, g))
        | inl (b, f) ↦
            let f' = read_secret-Extends (link_of p l) (secret_of p l) b s t e f in
            ground (arith, f, f', g)
      ]

  module _ (sl : StoreLaws p v) where
    pub record Grows {A : Type 0} (m : Effect p v A) : Type 0 where
      pub grows : (w : World p v) → Extends w.store (m w).0.store

    -- What a call that came to an end has left.
    pub Grows-eq :
        {A : Type 0} {m : Effect p v A} (w : World p v) {w' : World p v}
        {r : Result (MountError p) A}
        → Grows m
        → m w ≡ (w', r)
        → Extends w.store w'.store
    Grows-eq w g e = subst (λ x. Extends w.store x.0.store) e (g.grows w)

    pub Grows-after :
        {A B : Type 0} {m : Effect p v A} {f : A → Effect p v B}
        → Grows m
        → ((a : A) → Grows (f a))
        → Grows (m >>= f)
    Grows-after {A} {B} {m} {f} g k = record { grows = λ w. step w (m w) (g.grows w) }
      where
        step :
            (w : World p v) (x : World p v × Result (MountError p) A)
            → Extends w.store x.0.store
            → Extends w.store (after x f).0.store
        step w (w', ok a) e = Extends-trans w.store w'.store (f a w').0.store e ((k a).grows w')
        step w (w', err x) e = e

    -- An effect that leaves the blobs alone.
    pub Grows-still :
        {A : Type 0} {m : Effect p v A} → ((w : World p v) → (m w).0.store ≡ w.store) → Grows m
    Grows-still {A} {m} h = record { grows = λ w i b e. rw h e }

    pub pure-Grows : {A : Type 0} (a : A) → Grows (pure a)
    pure-Grows a = Grows-still (λ w. refl)

    pub put_blob-Grows : (b : p.Bytes) → Grows (put_blob p v b)
    unfolding put_blob
    put_blob-Grows b = record { grows = λ w h c e. sl.get-put_old b c w.store h e }

    pub encrypt-Grows : (k : p.Secret) (b : p.Bytes) → Grows (encrypt p v k b)
    unfolding encrypt
    encrypt-Grows k b = Grows-still (λ w. refl)

    pub generate_secret-Grows : Grows (generate_secret p v)
    unfolding generate_secret
    generate_secret-Grows = Grows-still (λ w. refl)

    pub put_secret-Grows : (o : Option p.Bytes) (k : p.Secret) → Grows (put_secret p v o k)
    unfolding put_secret
    put_secret-Grows none k = Grows-still (λ w. refl)
    put_secret-Grows (some b) k =
        Grows-after (encrypt-Grows k b)
          λ c. Grows-after (put_blob-Grows c) λ h. pure-Grows (v.raw_link h)

    pub put_node-Grows : (n : Node p) (k : p.Secret) → Grows (put_node_in_blobs p v n k)
    unfolding put_node_in_blobs
    put_node-Grows n k = put_secret-Grows (v.encode_node n) k

    pub store_dir-Grows :
        (node : Node p) (name : Name) (link : NodeLink p) (hs : List v.Hash)
        → Grows (store_dir p v node name link hs)
    unfolding store_dir
    store_dir-Grows node name link hs = Grows-after generate_secret-Grows λ k.
        Grows-after (put_node-Grows (insert_link p name link node) k)
          λ l. pure-Grows (dir_link l k, hs ++ v.hash l ∷ [])

    pub set_at-Grows :
        (consumed : FilePath) (node : Node p) (ps : FilePath) (name : Name) (link : NodeLink p)
        → Grows (set_at p v consumed node ps name link)
    unfolding set_at
    set_at-Grows consumed node [] name link = store_dir-Grows node name link []
    set_at-Grows consumed node (part ∷ rest) name link = record {
      grows = λ w.
          step w (enter p v (consumed ++ part ∷ []) (get_link p part node) w.store) (λ child.
            (Grows-after (set_at-Grows (consumed ++ part ∷ []) child rest name link)
                (λ r. store_dir-Grows node part r.0 r.1)).grows
              w);
    }
      where
        step :
            (w : World p v) (r : Result (MountError p) (Node p))
            → ((child : Node p)
                → Extends w.store
                    ((set_at p v (consumed ++ part ∷ []) child rest name link >>= λ q.
                        store_dir p v node part q.0 q.1)
                      w).0.store)
            → Extends w.store
                (after
                  (w, r)
                  (λ child. set_at p v (consumed ++ part ∷ []) child rest name link >>= λ q.
                    store_dir p v node part q.0 q.1)).0.store
        step w (ok child) k = k child
        step w (err x) k = λ h b e. e

    -- A blob that is put under a secret is read under it.
    pub read-put_secret :
        (cl : CodecLaws p v) (o : Option p.Bytes) (k : p.Secret) (w w' : World p v) (l : p.Link)
        → put_secret p v o k w ≡ (w', ok l)
        → (b : p.Bytes) × (o ≡ some b) × (read_secret p v l k w'.store ≡ ok b)
    unfolding put_secret encrypt put_blob read_secret read_blob
    read-put_secret cl none k w w' l e = cc
    read-put_secret cl (some b) k w w' l e =
        let (w1, c, e1, f1) = after-eq-ok (encrypt p v k b w) _ e in
        let (w2, h, e2, f2) = after-eq-ok (put_blob p v c w1) _ f1 in
        let plain = cl.decrypt-encrypt w.draws k b c (ground (arith, e1)) in
        let put : (v.put c w1.store).1 ≡ some h = ground (arith, e2) in
        let there = sl.get-put c w1.store h put in
        let same = sl.hash-raw_link h in (b, refl, ground (arith, e2, f2, plain, there, same))
