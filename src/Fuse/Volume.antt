-- ===== src/Fuse/Volume.antt =====
-- What the handlers take from a mount, an interface that crates/common/src/mount/mount_inner.rs
-- fills: the operations on paths, of whose errors the handlers only see that there is one.
use jax_fs.Prelude.{
  arith, ℕ, ◌≡◌, refl, ap, ◌∙◌, Bool, true, false, Option, none, some, List, [], ◌∷◌,
}
use jax_fs.Prelude.Results.{Result, ok, err}
use jax_fs.Ord.{Ord}
use jax_fs.BTreeMap.{BTreeMap}
use jax_fs.FilePath.{FilePath}
use jax_fs.Manifest.Platform.{Platform}
use jax_fs.Mount.Node.{NodeLink, is_dir_link}
use jax_fs.Mount.Vault.{Vault, StoreLaws, CodecLaws}
use jax_fs.Mount.Blobs.{MountError}
use jax_fs.Mount.Session.{Session, cat, ls}
use jax_fs.Mount.Files.{add, rm, mkdir, mv}
use jax_fs.Mount.Seek.{apart}
use jax_fs.Mount.Adding.{cat-add, cat-add-apart}

-- A call that changes the mount tells whether it succeeded.
pub record Volume : Type 1 where
  pub Tree : Type 0
  -- The items of a directory, each with whether it is one.
  pub ls : FilePath → Tree → Option (List (FilePath × Bool))
  pub cat : FilePath → Tree → Option (List ℕ)
  pub add : FilePath → List ℕ → Tree → Tree × Bool
  pub rm : FilePath → Tree → Tree × Bool
  pub mkdir : FilePath → Tree → Tree × Bool
  pub mv : FilePath → FilePath → Tree → Tree × Bool

pub record VolumeLaws (m : Volume) : Type 0 where
  pub cat-add :
      (path : FilePath) (bytes : List ℕ) (t t' : m.Tree)
      → m.add path bytes t ≡ (t', true)
      → m.cat path t' ≡ some bytes
  pub cat-add-apart :
      (path q : FilePath) (bytes b : List ℕ) (t t' : m.Tree)
      → m.add path bytes t ≡ (t', true)
      → apart path q ≡ true
      → m.cat q t ≡ some b
      → m.cat q t' ≡ some b

-- The contents of files as lists of bytes.
pub record Octets (p : Platform) : Type 0 where
  pub to_octets : p.Bytes → List ℕ
  pub of_octets : List ℕ → p.Bytes
  pub to-of : (bs : List ℕ) → to_octets (of_octets bs) ≡ bs

module _ (p : Platform) (v : Vault p) where
  abbrev outcome : Session p v × Result (MountError p) (Unit {0}) → Session p v × Bool
  outcome (s, ok u) = (s, true)
  outcome (s, err e) = (s, false)

  abbrev kinds : BTreeMap FilePath (NodeLink p) → List (FilePath × Bool)
  kinds [] = []
  kinds ((path, link) ∷ items) = (path, is_dir_link p link) ∷ kinds items

  abbrev kinds_of :
      Result (MountError p) (BTreeMap FilePath (NodeLink p)) → Option (List (FilePath × Bool))
  kinds_of (ok items) = some (kinds items)
  kinds_of (err e) = none

  abbrev pub octets_of : Octets p → Result (MountError p) p.Bytes → Option (List ℕ)
  octets_of o (ok b) = some (o.to_octets b)
  octets_of o (err e) = none

  outcome_succeeded :
      (x : Session p v × Result (MountError p) (Unit {0})) (s : Session p v)
      → outcome x ≡ (s, true)
      → x ≡ (s, ok tt)
  outcome_succeeded (s, ok u) s' h = ap (λ y. (y.0, ok tt)) h
  outcome_succeeded (s, err e) s' h = cc

  pub octets_some :
      (o : Octets p) (r : Result (MountError p) p.Bytes) (bs : List ℕ)
      → octets_of o r ≡ some bs
      → (b : p.Bytes) × (r ≡ ok b) × (o.to_octets b ≡ bs)
  octets_some o (ok b) bs h = (b, refl, ground (arith, h))
  octets_some o (err e) bs h = cc

module _ (p : Platform) (v : Vault p) ⦃ko : Ord p.Key⦄ ⦃ho : Ord v.Hash⦄ (o : Octets p) where
  -- The mounts of Mount/Files.
  abbrev pub mount_volume : Volume
  mount_volume = record {
    Tree = Session p v;
    ls = λ path s. kinds_of p v (ls p v path s);
    cat = λ path s. octets_of p v o (cat p v path s);
    add = λ path bytes s. outcome p v (add p v path (o.of_octets bytes) s);
    rm = λ path s. outcome p v (rm p v path s);
    mkdir = λ path s. outcome p v (mkdir p v path s);
    mv = λ from to s. outcome p v (mv p v from to s);
  }

  -- What the handlers rely on holds of every mount.
  pub mount_volume-VolumeLaws : StoreLaws p v → CodecLaws p v → VolumeLaws mount_volume
  mount_volume-VolumeLaws sl cl = record {
    cat-add = λ path bytes t t' h.
        let done = outcome_succeeded p v (add p v path (o.of_octets bytes) t) t' h in
        ap (octets_of p v o) (cat-add p v sl cl path (o.of_octets bytes) t t' done)
        ∙ ap some (o.to-of bytes);
    cat-add-apart = λ path q bytes b t t' h a e.
        let done = outcome_succeeded p v (add p v path (o.of_octets bytes) t) t' h in
        let (b', was, same) = octets_some p v o (cat p v q t) b e in
        ap (octets_of p v o) (cat-add-apart p v sl cl path q (o.of_octets bytes) b' t t' done a was)
        ∙ ap some same;
  }
