-- ===== src/Fuse/Content.antt =====
-- crates/daemon/src/fuse/jax_fs.rs: the handlers on open files. A write goes to the buffer of its
-- handle, and a flush hands the buffer to the mount.
use jax_fs.Prelude.{
  ℕ, ◌+◌, ◌/◌, ◌%◌, Bool, true, false, ◌&&◌, not, Option, none, some, List, [], if◌then◌else◌,
  length, ltb, leb, is_none, unwrap_or,
}
use jax_fs.Prelude.Results.{Result, ok, err}
use jax_fs.Ord.{u64_ord, ◌==◌}
use jax_fs.BTreeMap.{get, insert, remove}
use jax_fs.FilePath.{Name}
use jax_fs.Mount.Act.{gets, give, pure, modify, fail_if, ◌>>=◌, ◌>>◌}
use jax_fs.Fuse.Volume.{Volume}
use jax_fs.Fuse.Cache.{Caches, CachedContent, invalidate}
use jax_fs.Fuse.Octet.{resize, slice, copy_from_slice}
use jax_fs.Fuse.State.{
  JaxFs, WriteBuffer, Errno, Handler, next_handle, path_of, on_cache, request_save, on_mount,
  to_path,
}
use jax_fs.Fuse.Fetch.{fetch_attr, fetch_content}

abbrev min : ℕ → ℕ → ℕ
min a b = if leb a b then a else b

-- The bytes of an offset and a size, as many as there are.
unfoldable pub read_at : ℕ → ℕ → List ℕ → List ℕ
unfolding slice
read_at offset size bytes =
    if ltb offset (length bytes)
    then slice offset (min (offset + size) (length bytes)) bytes
    else []

-- The content after a write at an offset: longer if need be, with zeros in between.
unfoldable pub write_at : ℕ → List ℕ → List ℕ → List ℕ
write_at offset bytes content = copy_from_slice offset bytes (
    if ltb (length content) (offset + length bytes)
    then resize (offset + length bytes) content
    else content)

-- The bits O_WRONLY, O_RDWR, O_TRUNC and O_APPEND of the flags, as Linux has them: 1, 2, 512, 1024.
unfoldable pub wants_write : ℕ → Bool
wants_write flags = not (flags % 4 == 0 && ((flags / 512) % 4 == 0))

abbrev pub no_buffer : WriteBuffer
no_buffer = record { content = []; dirty = false }

-- The content of a buffer that is not clean.
abbrev pub dirty_content : Option WriteBuffer → Option (List ℕ)
dirty_content none = none
dirty_content (some b) = if b.dirty then some b.content else none

-- The bytes of a buffer, unless the offset is beyond it.
abbrev pub buffered : ℕ → ℕ → Option WriteBuffer → Option (List ℕ)
buffered offset size none = none
buffered offset size (some b) =
    if ltb offset (length b.content) then some (read_at offset size b.content) else none

module _ (m : Volume) (c : Caches) where
  abbrev pub bytes_of : Option CachedContent → ℕ → ℕ → Result Errno (List ℕ)
  bytes_of none offset size = err Errno.eio
  bytes_of (some content) offset size = ok (read_at offset size content.data_bytes)

  -- A read that the buffer of its handle does not answer.
  unfoldable pub read_through : ℕ → ℕ → ℕ → Handler m c (List ℕ)
  unfolding path_of fetch_content read_at
  read_through ino offset size = do
    path ← path_of m c ino
    content ← fetch_content m c path
    give (bytes_of content offset size)

  abbrev pub or_through : Option (List ℕ) → Handler m c (List ℕ) → Handler m c (List ℕ)
  or_through none through s = through s
  or_through (some bytes) through s = (s, ok bytes)

  unfoldable pub read : ℕ → ℕ → ℕ → ℕ → Handler m c (List ℕ)
  unfolding read_through read_at get
  read ino fh offset size s =
      or_through (buffered offset size (get fh s.write_buffers)) (read_through ino offset size) s

  unfoldable pub open_file : ℕ → ℕ → ℕ → Handler m c ℕ
  unfolding path_of fetch_attr next_handle wants_write
  open_file now ino flags = do
    path ← path_of m c ino
    attr ← fetch_attr m c now path
    fail_if (is_none attr) Errno.enoent
    read_only ← gets (λ s. s.read_only)
    fail_if (read_only && wants_write flags) Errno.erofs
    next_handle m c

  abbrev pub put_buffer : ℕ → WriteBuffer → JaxFs m c → JaxFs m c
  put_buffer fh b s = record s { write_buffers = insert fh b s.write_buffers }

  -- `write`, with the number of bytes written; a handle without a buffer gets an empty one.
  unfoldable pub write : ℕ → ℕ → List ℕ → Handler m c ℕ
  unfolding write_at get insert
  write fh offset bytes = do
    read_only ← gets (λ s. s.read_only)
    fail_if read_only Errno.erofs
    buffer ← gets (λ s. unwrap_or (get fh s.write_buffers) no_buffer)
    modify (put_buffer fh (record { content = write_at offset bytes buffer.content; dirty = true }))
    pure (length bytes)

  abbrev clean : WriteBuffer → WriteBuffer
  clean b = record b { dirty = false }

  abbrev update_buffer :
      ℕ → (WriteBuffer → WriteBuffer) → Option WriteBuffer → JaxFs m c → JaxFs m c
  update_buffer fh f none s = s
  update_buffer fh f (some b) s = put_buffer fh (f b) s

  unfoldable pub mark_clean : ℕ → JaxFs m c → JaxFs m c
  unfolding get insert
  mark_clean fh s = update_buffer fh clean (get fh s.write_buffers) s

  -- What `flush` does with the content of a dirty buffer.
  unfoldable pub flush_content : ℕ → Name → Option (List ℕ) → Handler m c (Unit {0})
  unfolding on_mount mark_clean invalidate to_path
  flush_content fh path none = pure tt
  flush_content fh path (some bytes) = do
    on_mount m c (m.add (to_path path) bytes)
    modify (λ s. request_save m c (on_cache m c (invalidate c path) (mark_clean fh s)))

  unfoldable pub flush_path : ℕ → ℕ → Handler m c (Unit {0})
  unfolding path_of flush_content get
  flush_path ino fh = do
    path ← path_of m c ino
    bytes ← gets (λ s. dirty_content (get fh s.write_buffers))
    flush_content fh path bytes

  unfoldable pub flush : ℕ → ℕ → Handler m c (Unit {0})
  unfolding flush_path
  flush ino fh s = if s.read_only then (s, ok tt) else flush_path ino fh s

  unfoldable pub release : ℕ → Handler m c (Unit {0})
  unfolding remove
  release fh s = (record s { write_buffers = remove fh s.write_buffers }, ok tt)
