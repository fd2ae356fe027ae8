-- ===== src/Mount/Moving.antt =====
-- crates/common/src/mount/mount_inner.rs, `mv`: what it moves, and what it keeps.
use jax_fs.Prelude.{
  ◌≡◌, ◌≢◌, refl, sym, ◌∙◌, ap, subst, true, false, none, some, [], ◌∷◌, ◌++◌, arith, Bool-cases,
  inl, inr, ◌⊎◌,
}
use jax_fs.Prelude.Results.{ok, to_option}
use jax_fs.Ord.{Ord, u64_ord, ◌==◌, eq_of_==, ==_comm}
use jax_fs.Ord.Lex.{lex_ord}
use jax_fs.FilePath.{Name, FilePath}
use jax_fs.PathOps.Op.{OpType, op_id_ord}
use jax_fs.PathOps.Log.{record_op}
use jax_fs.Manifest.Platform.{Platform}
use jax_fs.Mount.Node.{IsValid, NodeLink, is_dir_link}
use jax_fs.Mount.Vault.{Vault, StoreLaws, CodecLaws}
use jax_fs.Mount.Act.{after-eq-ok, give-eq-ok, fail_if-eq-ok}
use jax_fs.Mount.Blobs.{MountError}
use jax_fs.Mount.Session.{Session, log_op, get_mount_link, cat, read_data}
use jax_fs.Mount.Files.{replace_link, remove_link, mv, starts_with, is_ok}
use jax_fs.Mount.Grows.{Extends, Extends-trans}
use jax_fs.Mount.Seek.{apart, seek, seek-Extends, seek_prefix}
use jax_fs.Mount.Replaced.{at}
use jax_fs.Mount.Kept.{read_data-Extends, get_of_at, get_of_gone, at_of_get}
use jax_fs.Mount.Unlinked.{replace_link_root, replace_link-Replaced_any, remove_link-Unlinked}

-- How the new path stands to the old one.
pub starts_with-cases :
    (to from : FilePath)
    → (starts_with to from ≡ true)
      ⊎ ((apart to from ≡ true) ⊎ ((m : Name) × (r : FilePath) × (from ≡ to ++ m ∷ r)))
unfolding starts_with apart
starts_with-cases to [] = inl refl
starts_with-cases [] (n ∷ from) = inr (inr (n, from, refl))
starts_with-cases (m ∷ to) (n ∷ from) = elim (Bool-cases (m == n)) [
  | inr e ↦ let f = ==_comm m n in inr (inl (ground (arith, e, f)))
  | inl e ↦
      let f = ==_comm m n in
      elim (starts_with-cases to from) [
        | inl h ↦ inl (ground (arith, e, h))
        | inr (inl h) ↦ inr (inl (ground (arith, e, f, h)))
        | inr (inr (k, r, h)) ↦ inr (inr (k, r, cc (h, eq_of_== m n e)))
      ]
]

module _ (p : Platform) (v : Vault p) ⦃ko : Ord p.Key⦄ ⦃ho : Ord v.Hash⦄ (sl : StoreLaws p v)
    (cl : CodecLaws p v) where
  -- A link that was moved.
  record Moved (from to : FilePath) (link : NodeLink p) (s s' : Session p v) : Type 0 where
    pub grown : Extends p v s.world.store s'.world.store
    pub was : at p v from s ≡ some link
    pub here : at p v to s' ≡ some link
    pub gone : at p v from s' ≡ none
    pub kept :
        (q : FilePath)
        → apart from q ≡ true
        → apart to q ≡ true
        → at p v q s' ≡ seek p v q s.inner.entry s'.world.store
    pub logged :
        s'.inner.ops_log
        ≡ (record_op s.inner.peer_id
            (OpType.mv from)
            to
            none
            (is_dir_link p link)
            s.inner.ops_log).0

  -- The new path is apart from the old one, if it does not begin with it and nothing is there yet.
  apart-mv :
      (from to : FilePath) (link : NodeLink p) (s : Session p v)
      → starts_with to from ≡ false
      → at p v from s ≡ some link
      → is_ok p v (get_mount_link p v to s) ≡ false
      → to ≢ []
      → apart to from ≡ true
  apart-mv from [] link s a b c d = absurd (d refl)
  apart-mv from (n ∷ to) link s a b c d = elim (starts_with-cases (n ∷ to) from) [
    | inl x ↦ cc
    | inr (inl x) ↦ x
    | inr (inr (m, r, x)) ↦
        let b' : seek p v (n ∷ to ++ m ∷ r) s.inner.entry s.world.store ≡ some link =
          ap (λ y. at p v y s) (sym x) ∙ b in
        let (k, y) = seek_prefix p v n to m r s.inner.entry s.world.store link b' in
        let z = get_of_at p v (n ∷ to) s k y in absurd (ground (arith, c, z))
  ]

  mv-Moved :
      (from to : FilePath) (s s' : Session p v)
      → IsValid p s.inner.entry
      → mv p v from to s ≡ (s', ok tt)
      → (link : NodeLink p) × Moved from to link s s'
  unfolding mv log_op
  mv-Moved from to s s' i e =
      let (outside, f1) =
        fail_if-eq-ok (starts_with to from) (MountError.move_into_self from to) s _ e in
      let (link, e2, f2) = give-eq-ok (get_mount_link p v from s) s _ f1 in
      let (free, f3) =
        fail_if-eq-ok (is_ok p v (get_mount_link p v to s)) (MountError.path_already_exists to) s _
          f2 in
      let (s1, l, e4, f4) = after-eq-ok (remove_link p v from s) _ f3 in
      let (s2, u, e5, f5) = after-eq-ok (replace_link p v link to [] s1) _ f4 in
      let c = remove_link-Unlinked p v sl cl from l s s1 i e4 in
      let d = replace_link-Replaced_any p v sl cl link to [] s1 s2 e5 in
      let was = at_of_get p v from s link e2 in
      let placed : to ≢ [] = λ x.
        replace_link_root p v sl cl link [] s1 s2
          (ap (λ y. replace_link p v link y [] s1) (sym x) ∙ e5) in
      let away = apart-mv from to link s outside was free placed in
      let refl_of = λ (h : v.Hash) (b : p.Bytes) (x : v.get h s2.world.store ≡ some b). x in
      (
        link,
        subst (λ x. Moved from to link s x.0) f5
            record {
              grown = Extends-trans p v s.world.store s1.world.store s2.world.store c.grown d.grown;
              was = was;
              here = d.here;
              gone = d.kept from s2.world.store refl_of away ∙ c.gone s2.world.store d.grown;
              kept = λ q a b. d.kept q s2.world.store refl_of b ∙ c.kept q s2.world.store d.grown a;
              logged = rw (d.log_kept, d.peer_kept, c.log_kept, c.peer_kept) refl;
            },
      )

  -- Over blobs, encryption and codecs that keep their laws: when `mv` succeeds on a mount whose root
  -- has its names sorted, the link that was at the old path is at the new
  -- one, nothing is at the old one, and one move was logged, under the new path and with the old.
  pub get-mv :
      (from to : FilePath) (s s' : Session p v)
      → IsValid p s.inner.entry
      → mv p v from to s ≡ (s', ok tt)
      → (link : NodeLink p) × (get_mount_link p v from s ≡ ok link)
        × (get_mount_link p v to s' ≡ ok link)
        × (to_option (get_mount_link p v from s') ≡ none)
        × (s'.inner.ops_log
            ≡ (record_op s.inner.peer_id
                (OpType.mv from)
                to
                none
                (is_dir_link p link)
                s.inner.ops_log).0)
  get-mv from to s s' i e =
      let (link, c) = mv-Moved from to s s' i e in
      (
        link,
        get_of_at p v from s link c.was,
        get_of_at p v to s' link c.here,
        get_of_gone p v from s' c.gone,
        c.logged,
      )

  -- Over blobs, encryption and codecs that keep their laws: when `mv` succeeds on a mount whose root
  -- has its names sorted, a file under the old path has its bytes under
  -- the new one.
  pub cat-mv :
      (from to : FilePath) (b : p.Bytes) (s s' : Session p v)
      → IsValid p s.inner.entry
      → mv p v from to s ≡ (s', ok tt)
      → cat p v from s ≡ ok b
      → cat p v to s' ≡ ok b
  unfolding cat
  cat-mv from to b s s' i e h =
      let (link, c) = mv-Moved from to s s' i e in
      let found = get_of_at p v from s link c.was in
      let moved = get_of_at p v to s' link c.here in
      let h' : read_data p v from link s.world.store ≡ ok b = ground (arith, found, h) in
      rw moved (read_data-Extends p v from to link s.world.store s'.world.store b c.grown h')

  -- Over blobs, encryption and codecs that keep their laws: when `mv` succeeds on a mount whose root
  -- has its names sorted, every link at a path apart from both is still
  -- there.
  pub get-mv-apart :
      (from to q : FilePath) (l : NodeLink p) (s s' : Session p v)
      → IsValid p s.inner.entry
      → mv p v from to s ≡ (s', ok tt)
      → apart from q ≡ true
      → apart to q ≡ true
      → get_mount_link p v q s ≡ ok l
      → get_mount_link p v q s' ≡ ok l
  get-mv-apart from to q l s s' i e a b h =
      let (link, c) = mv-Moved from to s s' i e in
      let there =
        seek-Extends p v q s.inner.entry s.world.store s'.world.store l c.grown
          (at_of_get p v q s l h) in
      get_of_at p v q s' l (c.kept q a b ∙ there)
