-- ===== src/Mount/Merged.antt =====
-- crates/common/src/mount/mount_inner.rs, `merge_from`: what a merge does to the files of the mount.
use jax_fs.Prelude.{
  ℕ, ◌≡◌, refl, sym, ap, subst, Bool, false, ◌&&◌, [], ◌∷◌, is_some, Bool-cases, inl, inr,
}
use jax_fs.Prelude.Results.{Result, ok, err}
use jax_fs.Ord.{Ord, u64_ord}
use jax_fs.Ord.Lex.{lex_ord}
use jax_fs.BTreeMap.{BTreeMap}
use jax_fs.FilePath.{FilePath}
use jax_fs.PathOps.Op.{op_id_ord}
use jax_fs.PathOps.Log.{log_is_empty}
use jax_fs.PathOps.Resolve.{resolve_all}
use jax_fs.PathOps.MergeResolver.{merge_with_resolver}
use jax_fs.Conflict.Types.{ConflictResolver, MergeResult}
use jax_fs.Manifest.Platform.{Platform}
use jax_fs.Mount.Node.{NodeLink}
use jax_fs.Mount.Vault.{Vault, StoreLaws, CodecLaws}
use jax_fs.Mount.Act.{after, after-eq-ok, give-eq-ok}
use jax_fs.Mount.Blobs.{MountError}
use jax_fs.Mount.Session.{MountInner, Session, cat, get_mount_link}
use jax_fs.Mount.Files.{mkdir}
use jax_fs.Mount.Save.{save}
use jax_fs.Mount.Saved.{save-Steps}
use jax_fs.Mount.Reads.{store_ops_log-Grows, put_pins-Grows, put_manifest-Grows}
use jax_fs.Mount.Shares.{reshare-Grows}
use jax_fs.Mount.Chain.{Log, collect_ops_since, find_mount_ancestor}
use jax_fs.Mount.Merge.{
  Op, is_mkdir, merge_ops, note_missing, or_existing, apply_op, apply_ops, apply_resolved_state,
  merge_from,
}
use jax_fs.Mount.Grows.{Extends, Grows-eq, put_node-Grows}
use jax_fs.Mount.Unharmed.{KeepsFiles, KeepsFiles-trans, grown-KeepsFiles}
use jax_fs.Mount.Unmade.{mkdir-KeepsFiles}

module _ (p : Platform) (v : Vault p) ⦃ko : Ord p.Key⦄ ⦃ho : Ord v.Hash⦄ (sl : StoreLaws p v)
    (cl : CodecLaws p v) where
  same-KeepsFiles :
      (s s' : Session p v)
      → s'.inner.entry ≡ s.inner.entry
      → s'.world ≡ s.world
      → KeepsFiles p v s s'
  same-KeepsFiles s s' e f =
      grown-KeepsFiles p v s s' e
        (subst (λ w. Extends p v s.world.store w.store) (sym f) (λ h b g. g))

  note_missing-KeepsFiles :
      (op : Op p v) (found : Result (MountError p) (NodeLink p)) (s : Session p v)
      → KeepsFiles p v s (note_missing p v op found s).0
  unfolding note_missing merge_ops
  note_missing-KeepsFiles op (ok link) s = same-KeepsFiles s s refl refl
  note_missing-KeepsFiles op (err (MountError.path_not_found x)) s = same-KeepsFiles s _ refl refl
  note_missing-KeepsFiles op (err e) s = same-KeepsFiles s s refl refl

  or_existing-state :
      (x : Session p v × Result (MountError p) (Unit {0})) → (or_existing p v (λ s. x) x.0).0 ≡ x.0
  unfolding or_existing
  or_existing-state (s, ok u) = refl
  or_existing-state (s, err (MountError.path_already_exists x)) = refl
  or_existing-state (s, err e) = refl

  apply_op-KeepsFiles :
      (path : FilePath) (op : Op p v) (s : Session p v)
      → KeepsFiles p v s (apply_op p v path op s).0
  unfolding apply_op
  apply_op-KeepsFiles path op s = elim (Bool-cases (is_some op.content_link)) [
    | inl t ↦ rw t (note_missing-KeepsFiles op (get_mount_link p v path s) s)
    | inr f ↦ elim (Bool-cases (op.is_dir && is_mkdir op.op_type)) [
      | inr g ↦ rw (f, g) (same-KeepsFiles s s refl refl)
      | inl t ↦
          let x = mkdir p v path s in
          let made = mkdir-KeepsFiles p v sl cl path s x.0 x.1 refl in
          rw (f, t) (subst (KeepsFiles p v s) (sym (or_existing-state x)) made)
    ]
  ]

  apply_ops-KeepsFiles :
      (ops : BTreeMap FilePath (Op p v)) (s : Session p v)
      → KeepsFiles p v s (apply_ops p v ops s).0
  unfolding apply_ops
  apply_ops-KeepsFiles [] s = same-KeepsFiles s s refl refl
  apply_ops-KeepsFiles ((path, op) ∷ ops) s =
      step (apply_op p v path op s) (apply_op-KeepsFiles path op s) (apply_ops-KeepsFiles ops)
    where
      step :
          (x : Session p v × Result (MountError p) (Unit {0}))
          → KeepsFiles p v s x.0
          → ((t : Session p v) → KeepsFiles p v t (apply_ops p v ops t).0)
          → KeepsFiles p v s (after x (λ u. apply_ops p v ops)).0
      step (t, ok u) k more = KeepsFiles-trans p v s t (apply_ops p v ops t).0 k (more t)
      step (t, err e) k more = k

  save-KeepsFiles :
      (publish : Bool) (s s' : Session p v) (result : p.Link × p.Link × ℕ)
      → save p v publish s ≡ (s', ok result)
      → KeepsFiles p v s s'
  save-KeepsFiles publish s s' result e =
      let c = save-Steps p v sl cl publish s s' result e in
      let i = s.inner in
      let x1 = Grows-eq p v sl c.w1 (put_node-Grows p v sl i.entry c.k) c.put_entry in
      let x2 =
        Grows-eq p v sl c.w2
          (store_ops_log-Grows p v sl (log_is_empty i.ops_log) i.ops_log c.k c.pins) c.put_ops in
      let x3 = Grows-eq p v sl c.w3 (put_pins-Grows p v sl c.ops.1) c.put_pins in
      let x4 = Grows-eq p v sl c.w4 (reshare-Grows p v sl c.k i.manifest.shares) c.share_out in
      let x5 = Grows-eq p v sl c.w5 (put_manifest-Grows p v sl c.m) c.put_manifest in
      let all : Extends p v c.w1.store c.w7.store =
        λ h b g. x5 h b (x4 h b (x3 h b (x2 h b (x1 h b g)))) in
      let whole : Extends p v s.world.store s'.world.store =
        subst (λ t. Extends p v t s'.world.store) c.first_store
          (subst (λ w. Extends p v c.w1.store w.store) c.world_of all) in
      grown-KeepsFiles p v s s' (sym c.entry_of) whole

  merge_ops-KeepsFiles :
      (log : Log p v) (s : Session p v)
      → KeepsFiles p v s (record s { inner = merge_ops p v log s.inner })
  unfolding merge_ops
  merge_ops-KeepsFiles log s = same-KeepsFiles s _ refl refl

module _ (p : Platform) (v : Vault p) ⦃ko : Ord p.Key⦄ ⦃lo : Ord p.Link⦄ ⦃ho : Ord v.Hash⦄
    (sl : StoreLaws p v) (cl : CodecLaws p v) where
  -- Over blobs, encryption and codecs that keep their laws: when the merge of another mount succeeds,
  -- every file that `cat` could read before still reads the same bytes, whatever the other mount
  -- removed, moved or wrote, and whatever the strategy decided on the conflicts.
  pub cat-merge_from :
      (fuel : ℕ) (incoming : MountInner p v) (resolver : ConflictResolver p.Key p.Link)
      (result : MergeResult p.Key p.Link × p.Link) (q : FilePath) (b : p.Bytes) (s s' : Session p v)
      → merge_from p v fuel incoming resolver s ≡ (s', ok result)
      → cat p v q s ≡ ok b
      → cat p v q s' ≡ ok b
  unfolding merge_from apply_resolved_state
  cat-merge_from fuel incoming resolver result q b s s' e =
      let (ancestor, e1, f1) =
        give-eq-ok (find_mount_ancestor p v fuel s.inner incoming s.world.store) s _ e in
      let (local_ops, e2, f2) =
        give-eq-ok (collect_ops_since p v fuel ancestor s.inner s.world.store) s _ f1 in
      let (incoming_ops, e3, f3) =
        give-eq-ok (collect_ops_since p v fuel ancestor incoming s.world.store) s _ f2 in
      let merged = merge_with_resolver local_ops incoming_ops resolver s.inner.peer_id in
      let ops = resolve_all merged.0 in
      let (s1, u, e4, f4) = after-eq-ok (apply_ops p v ops s) _ f3 in
      let s2 : Session p v = record s1 { inner = merge_ops p v merged.0 s1.inner } in
      let (s3, saved, e5, f5) = after-eq-ok (save p v false s2) _ f4 in
      let applied = subst (λ x. KeepsFiles p v s x.0) e4 (apply_ops-KeepsFiles p v sl cl ops s) in
      let noted = merge_ops-KeepsFiles p v sl cl merged.0 s1 in
      let kept = save-KeepsFiles p v sl cl false s2 s3 saved e5 in
      let last : s3 ≡ s' = ap (λ x. x.0) f5 in
      let all = KeepsFiles-trans p v s s1 s3 applied (KeepsFiles-trans p v s1 s2 s3 noted kept) in
      (subst (KeepsFiles p v s) last all).keeps q b
