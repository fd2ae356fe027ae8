-- ===== src/Tests/Fuse.antt =====
-- The handlers of a mounted file system on the files of Tests/Volumes: a file a is made, written and
-- flushed.
use jax_fs.Prelude.{
  ℕ, ◌≡◌, ◌≢◌, ◌<◌, ◌≤◌, ◌-◌, refl, Bool, true, false, length, ltb, if◌then◌else◌, none, some, List,
  [], ◌∷◌, arith,
}
use jax_fs.Prelude.Results.{ok}
use jax_fs.Ord.{u64_ord, eq_of_==}
use jax_fs.Ord.Lex.{lex_ord}
use jax_fs.BTreeMap.{get}
use jax_fs.FilePath.{Name}
use jax_fs.InodeTable.Table.{get_path}
use jax_fs.Mount.Seek.{apart}
use jax_fs.Fuse.Cache.{CachedContent}
use jax_fs.Fuse.State.{JaxFs, new_fs, to_path}
use jax_fs.Fuse.Content.{write, read, flush}
use jax_fs.Fuse.Change.{create}
use jax_fs.FilePath.{FilePath}
use jax_fs.Fuse.State.{FileType, FileAttr}
use jax_fs.Fuse.Octet.{get_elem?}
use jax_fs.Fuse.Attributes.{DirItem, setattr, from_offset, fill}
use jax_fs.Fuse.Calls.{Call, serve, Reaches}
use jax_fs.Fuse.ReadOnly.{read_only_kept}
use jax_fs.Fuse.Written.{content_before, read-write, get-write, read_bounded}
use jax_fs.Fuse.Flushed.{read-flush, flush-write_fresh}
use jax_fs.Fuse.Coherent.{IsCoherent, read-eq-direct_read}
use jax_fs.Fuse.KeepsCoherent.{flush-IsCoherent}
use jax_fs.Fuse.Pages.{IsNumbered, fill-from_offset}
use jax_fs.Fuse.Truncated.{cat-setattr}
use jax_fs.Tests.Volumes.{toy, toy_laws, toy_caches, toy_cached}

abbrev empty_fs : JaxFs toy toy_caches
empty_fs = new_fs toy toy_caches (λ path. none) [] false (some 0)

abbrev a : Name
a = b'/' ∷ 97 ∷ []

abbrev bytes : List ℕ
bytes = 1 ∷ 2 ∷ 3 ∷ []

abbrev with_a : JaxFs toy toy_caches
with_a = (create toy toy_caches 0 1 (some (97 ∷ [])) empty_fs).0

abbrev written : JaxFs toy toy_caches
written = (write toy toy_caches 1 0 bytes with_a).0

abbrev flushed : JaxFs toy toy_caches
flushed = (flush toy toy_caches 2 1 written).0

run_path : get_path 2 with_a.inodes ≡ some a
unfolding create new_fs
run_path = refl

abbrev sealed : JaxFs toy toy_caches
sealed = new_fs toy toy_caches (λ path. none) [] true (some 0)

abbrev made : JaxFs toy toy_caches
made = serve toy toy_caches 0 (Call.create_call 1 (some (97 ∷ []))) sealed

abbrev over_written : JaxFs toy toy_caches
over_written = (write toy toy_caches 5 1 (9 ∷ []) flushed).0

abbrev over : JaxFs toy toy_caches
over = (flush toy toy_caches 2 5 over_written).0

abbrev item : ℕ → DirItem
item n = record { ino = n; kind = FileType.regular_file; name = n ∷ [] }

abbrev second : DirItem
second = item 2

abbrev items : List DirItem
items = item 1 ∷ second ∷ item 3 ∷ []

abbrev cut_attr : FileAttr
cut_attr = record {
  ino = 2;
  size = 2;
  blocks = 1;
  mtime = 0;
  kind = FileType.regular_file;
  perm = 420;
}

-- A reply with room for one item.
abbrev one_item : List (DirItem × ℕ) → DirItem × ℕ → Bool
one_item [] x = false
one_item (y ∷ page) x = true

abbrev cut : JaxFs toy toy_caches
cut = (setattr toy toy_caches 0 2 (some 2) none none flushed).0

read_only_kept_example :
    (made.mount ≡ sealed.mount) × (made.save_tx ≡ sealed.save_tx) × (made.read_only ≡ true)
unfolding create new_fs write read flush serve
read_only_kept_example =
    read_only_kept toy toy_caches sealed made refl
      (Reaches.call 0 (Call.create_call 1 (some (97 ∷ []))) Reaches.start)

read-write_example :
    (3 ≡ length bytes) × (read toy toy_caches 2 1 0 3 written ≡ (written, ok bytes))
unfolding create new_fs write read flush
read-write_example = read-write toy toy_caches 2 1 0 3 bytes with_a written (omega arith) refl

get-write_example :
    (length (content_before toy toy_caches 1 written) ≡ 3)
    × ((i : ℕ)
        → i < length (content_before toy toy_caches 1 written)
        → get_elem? (content_before toy toy_caches 1 written) i ≡ (
            if ltb i 0
            then (if ltb i 0 then none else some 0)
            else if ltb i 3
            then get_elem? bytes (i - 0)
            else none))
    × ((fh' : ℕ) → fh' ≢ 1 → get fh' written.write_buffers ≡ get fh' with_a.write_buffers)
unfolding create new_fs write read flush
get-write_example = get-write toy toy_caches 1 0 3 bytes with_a written refl

read_bounded_example : length bytes ≤ 3
unfolding create new_fs write read flush
read_bounded_example = read_bounded toy toy_caches 2 1 0 3 bytes written written refl

read-flush_example :
    (flushed.mount (to_path a) ≡ some bytes)
    × (flushed.save_tx ≡ some 1)
    × (get 1 flushed.write_buffers ≡ some (record { content = bytes; dirty = false }))
    × ((q : FilePath) (b : List ℕ)
        → apart (to_path a) q ≡ true
        → written.mount q ≡ some b
        → flushed.mount q ≡ some b)
    × ((read toy toy_caches 2 9 1 8 flushed).1 ≡ ok (2 ∷ 3 ∷ []))
unfolding create new_fs write read flush
read-flush_example =
    read-flush toy toy_caches toy_laws toy_cached a 2 1 9 1 8
      (record { content = bytes; dirty = true }) written flushed refl refl refl refl refl refl

flush-write_fresh_example : over.mount (to_path a) ≡ some (0 ∷ 9 ∷ [])
unfolding create new_fs write read flush
flush-write_fresh_example =
    flush-write_fresh toy toy_caches toy_laws a 2 5 1 1 (9 ∷ []) flushed over_written over refl refl
      refl refl

flushed-IsCoherent : IsCoherent toy toy_caches flushed
unfolding create new_fs write flush IsCoherent
flushed-IsCoherent k v e = absurd (ground (arith, e))

read-eq-direct_read_example :
    ((read toy toy_caches 2 9 1 8 flushed).1 ≡ ok (2 ∷ 3 ∷ []))
    × IsCoherent toy toy_caches (read toy toy_caches 2 9 1 8 flushed).0
    × ((read toy toy_caches 2 9 1 8 flushed).0.mount ≡ flushed.mount)
unfolding create new_fs write read flush
read-eq-direct_read_example =
    read-eq-direct_read toy toy_caches toy_cached a 2 9 1 8 flushed refl flushed-IsCoherent refl
      refl

-- The content of a is cached by a read, and then a is written again through another handle.
abbrev cached_a : JaxFs toy toy_caches
cached_a = (read toy toy_caches 2 9 1 8 flushed).0

abbrev rewritten : JaxFs toy toy_caches
rewritten = (write toy toy_caches 5 1 (9 ∷ []) cached_a).0

abbrev reflushed : JaxFs toy toy_caches
reflushed = (flush toy toy_caches 2 5 rewritten).0

rewritten-IsCoherent : IsCoherent toy toy_caches rewritten
unfolding create new_fs write read flush IsCoherent
rewritten-IsCoherent =
    (read-eq-direct_read toy toy_caches toy_cached a 2 9 1 8 flushed refl flushed-IsCoherent refl
      refl).1

cached_only :
    (k : Name) (v : CachedContent)
    → k ≢ a
    → toy_caches.content.get k rewritten.cache.content ≢ some v
unfolding create new_fs write read flush
cached_only k v ne e = ne (eq_of_== k a (ground (arith, e)))

flush-IsCoherent_example : IsCoherent toy toy_caches reflushed
unfolding create new_fs write read flush
flush-IsCoherent_example =
    flush-IsCoherent toy toy_caches toy_cached toy_laws a 2 5
      (record { content = 0 ∷ 9 ∷ []; dirty = true }) rewritten reflushed refl refl refl refl refl
      (λ k v ne e. absurd (cached_only k v ne e)) rewritten-IsCoherent refl

fill-from_offset_example :
    (from_offset 0 1 items ≡ (second, 2) ∷ from_offset 0 2 items) × IsNumbered 1 ((second, 2) ∷ [])
unfolding create new_fs write read flush from_offset fill
fill-from_offset_example = fill-from_offset one_item 1 items

cat-setattr_example : (cut.mount (to_path a) ≡ some (1 ∷ 2 ∷ [])) × (cut_attr.ino ≡ 2)
unfolding create new_fs write read flush setattr
cat-setattr_example =
    cat-setattr toy toy_caches toy_laws 0 2 2 a none none cut_attr flushed cut refl refl refl
