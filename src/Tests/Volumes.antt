-- ===== src/Tests/Volumes.antt =====
-- A mount and caches that are functions, on which the handlers of Fuse can run.
use jax_fs.Prelude.{
  ℕ, ◌≡◌, inl, inr, refl, sym, ◌∙◌, ap, Bool, true, false, Option, none, some, List, [], ◌∷◌, arith,
  if◌then◌else◌, Bool-cases,
}
use jax_fs.Ord.{u64_ord, ◌==◌, eq_of_==, ==_refl}
use jax_fs.Ord.Lex.{lex_ord}
use jax_fs.FilePath.{Name, FilePath}
use jax_fs.Mount.Seek.{apart}
use jax_fs.Fuse.Volume.{Volume, VolumeLaws}
use jax_fs.Fuse.Cache.{Moka, MokaLaws, Caches, CachedContent, CachedAttr, CachedDirEntry}

abbrev Files : Type 0
Files = FilePath → Option (List ℕ)

abbrev put_file : FilePath → Option (List ℕ) → Files → Files
put_file path content files q = if q == path then content else files q

abbrev is_there : Option (List ℕ) → Bool
is_there none = false
is_there (some bytes) = true

-- Files without directories; the root is listed with a file a, whether it is there or not.
abbrev pub toy : Volume
toy = record {
  Tree = Files;
  ls = λ path files. some (((97 ∷ []) ∷ [], false) ∷ []);
  cat = λ path files. files path;
  add = λ path bytes files. (put_file path (some bytes) files, true);
  rm = λ path files. (put_file path none files, is_there (files path));
  mkdir = λ path files. (files, false);
  mv =
      λ from to files. (put_file to (files from) (put_file from none files), is_there (files from));
}

apart_self : (path : FilePath) → apart path path ≡ false
unfolding apart
apart_self [] = refl
apart_self (n ∷ path) = rw (==_refl n) (apart_self path)

pub toy_laws : VolumeLaws toy
toy_laws = record {
  cat-add = λ path bytes t t' h. sym (ap (λ x. x.0 path) h) ∙ rw (==_refl path) refl;
  cat-add-apart = λ path q bytes b t t' h a e. elim (Bool-cases (q == path)) [
    | inl same ↦
        let away : apart q q ≡ true = ap (λ r. apart r q) (eq_of_== q path same) ∙ a in
        absurd (ground (arith, away, apart_self q))
    | inr f ↦ sym (ap (λ x. x.0 q) h) ∙ rw f e
  ];
}

abbrev keep_all : (V : Type 0) → Moka V
keep_all V = record {
  Cache = Name → Option V;
  empty = λ k. none;
  get = λ k s. s k;
  insert = λ k a s j. if j == k then some a else s j;
  invalidate = λ k s j. if j == k then none else s j;
  invalidate_all = λ s j. none;
}

abbrev pub toy_caches : Caches
toy_caches = record {
  content = keep_all CachedContent;
  attrs = keep_all CachedAttr;
  dirs = keep_all (List CachedDirEntry);
}

pub toy_cached : MokaLaws toy_caches.content
toy_cached = record {
  get-empty = λ k. refl;
  get-insert = λ k a s. inr (rw (==_refl k) refl);
  get-insert_other = λ k j a s ne. inr (ground (arith, eq_of_== j k, ne));
  get-invalidate = λ k s. rw (==_refl k) refl;
  get-invalidate_other =
      λ k j s. elim (Bool-cases (j == k)) [ inl t ↦ inl (rw t refl) | inr f ↦ inr (rw f refl) ];
  get-invalidate_all = λ k s. refl;
}
