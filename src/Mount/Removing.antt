-- ===== src/Mount/Removing.antt =====
-- crates/common/src/mount/mount_inner.rs, `rm`: what it removes, and what it keeps.
use jax_fs.Prelude.{◌≡◌, refl, subst, true, none}
use jax_fs.Prelude.Results.{ok, to_option}
use jax_fs.Ord.{Ord, u64_ord}
use jax_fs.Ord.Lex.{lex_ord}
use jax_fs.FilePath.{FilePath}
use jax_fs.PathOps.Op.{OpType, op_id_ord}
use jax_fs.PathOps.Log.{record_op}
use jax_fs.Manifest.Platform.{Platform}
use jax_fs.Mount.Node.{IsValid, NodeLink, is_dir_link}
use jax_fs.Mount.Vault.{Vault, StoreLaws, CodecLaws}
use jax_fs.Mount.Act.{after-eq-ok}
use jax_fs.Mount.Session.{Session, log_op, get_mount_link}
use jax_fs.Mount.Files.{remove_link, rm}
use jax_fs.Mount.Seek.{apart}
use jax_fs.Mount.Kept.{get_of_at, get_of_gone, keep}
use jax_fs.Mount.Unlinked.{Unlinked, remove_link-Unlinked}

module _ (p : Platform) (v : Vault p) ⦃ko : Ord p.Key⦄ ⦃ho : Ord v.Hash⦄ (sl : StoreLaws p v)
    (cl : CodecLaws p v) where
  -- `rm` as a removal that is logged.
  rm-Unlinked :
      (path : FilePath) (s s' : Session p v)
      → IsValid p s.inner.entry
      → rm p v path s ≡ (s', ok tt)
      → (link : NodeLink p) × Unlinked p v sl cl path link s
          (record s' { inner = record s'.inner { ops_log = s.inner.ops_log } })
        × (s'.inner.ops_log
            ≡ (record_op s.inner.peer_id OpType.remove path none
                (is_dir_link p link)
                s.inner.ops_log).0)
  unfolding rm log_op
  rm-Unlinked path s s' i e =
      let (s1, link, e1, f1) = after-eq-ok (remove_link p v path s) _ e in
      let c = remove_link-Unlinked p v sl cl path link s s1 i e1 in
      subst
        (λ x.
          (l : NodeLink p) × Unlinked p v sl cl path l s
            (record x.0 { inner = record x.0.inner { ops_log = s.inner.ops_log } })
          × (x.0.inner.ops_log
              ≡ (record_op s.inner.peer_id OpType.remove path none (is_dir_link p l)
                  s.inner.ops_log).0))
        f1
        (
          link,
          record {
            grown = c.grown;
            was = c.was;
            gone = c.gone;
            kept = c.kept;
            log_kept = refl;
            peer_kept = c.peer_kept;
          },
          rw (c.log_kept, c.peer_kept) refl,
        )

  -- Over blobs, encryption and codecs that keep their laws: when `rm` succeeds on a mount whose root
  -- has its names sorted, there was something at the path, there is
  -- nothing now, and one removal was logged.
  pub get-rm :
      (path : FilePath) (s s' : Session p v)
      → IsValid p s.inner.entry
      → rm p v path s ≡ (s', ok tt)
      → (link : NodeLink p) × (get_mount_link p v path s ≡ ok link)
        × (to_option (get_mount_link p v path s') ≡ none)
        × (s'.inner.ops_log
            ≡ (record_op s.inner.peer_id OpType.remove path none
                (is_dir_link p link)
                s.inner.ops_log).0)
  get-rm path s s' i e =
      let (link, c, f) = rm-Unlinked path s s' i e in
      (
        link,
        get_of_at p v path s link c.was,
        get_of_gone p v path s' (c.gone s'.world.store (λ h b x. x)),
        f,
      )

  -- Over blobs, encryption and codecs that keep their laws: when `rm` succeeds on a mount whose root
  -- has its names sorted, every link at a path apart from the removed one
  -- is still there.
  pub get-rm-apart :
      (path q : FilePath) (l : NodeLink p) (s s' : Session p v)
      → IsValid p s.inner.entry
      → rm p v path s ≡ (s', ok tt)
      → apart path q ≡ true
      → get_mount_link p v q s ≡ ok l
      → get_mount_link p v q s' ≡ ok l
  get-rm-apart path q l s s' i e a =
      let (link, c, f) = rm-Unlinked path s s' i e in
      (keep p v sl cl path s s' c.grown (λ r b. c.kept r s'.world.store (λ h c x. x) b)).keeps_get q
        l a
