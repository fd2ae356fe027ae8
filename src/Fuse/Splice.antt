-- ===== src/Fuse/Splice.antt =====
-- What the bytes of a content are after a write at an offset, and what a read at one gives:
-- crates/daemon/src/fuse/jax_fs.rs, `write` and `read`.
use jax_fs.Prelude.{
  ℕ, ◌+◌, ◌-◌, ◌≤◌, ◌<◌, ◌≡◌, ◌∙◌, arith, true, false, some, List, length, ltb, leb, if◌then◌else◌,
  Bool-cases, inl, inr,
}
use jax_fs.Ord.{u64_ord}
use jax_fs.Fuse.Octet.{
  copy_from_slice, resize, get_elem?, length-resize, length-copy_from_slice, length-slice,
  get-resize, get-copy_from_slice, slice-copy_from_slice,
}
use jax_fs.Fuse.Content.{read_at, write_at}

pub length-write_at :
    (offset : ℕ) (bytes content : List ℕ)
    → length (write_at offset bytes content) ≡ (
        if ltb (length content) (offset + length bytes)
        then offset + length bytes
        else length content)
unfolding write_at
length-write_at offset bytes content =
    elim (Bool-cases (ltb (length content) (offset + length bytes))) [
      | inl t ↦
          rw t
            (length-copy_from_slice offset bytes _ ∙ length-resize (offset + length bytes) content)
      | inr f ↦ rw f (length-copy_from_slice offset bytes content)
    ]

-- Where a write ends within the content, or at its end.
write_fits :
    (offset : ℕ) (bytes content : List ℕ)
    → (ltb (length content) (offset + length bytes) ≡ false)
    → offset + length bytes ≤ length content
write_fits offset bytes content h = ground (arith, h)

-- The bytes after a write: those written, around them those that were there, and zeros between.
pub get-write_at :
    (offset i : ℕ) (bytes content : List ℕ)
    → i < length (write_at offset bytes content)
    → get_elem? (write_at offset bytes content) i ≡ (
        if ltb i offset
        then (if ltb i (length content) then get_elem? content i else some 0)
        else if ltb i (offset + length bytes)
        then get_elem? bytes (i - offset)
        else get_elem? content i)
unfolding write_at
get-write_at offset i bytes content h =
    elim (Bool-cases (ltb (length content) (offset + length bytes))) [
      | inl t ↦
          let long = length-resize (offset + length bytes) content in
          let le = length-write_at offset bytes content in
          let a =
            get-copy_from_slice offset i bytes (resize (offset + length bytes) content)
              (omega (arith, long)) in
          let b = get-resize (offset + length bytes) i content in
          rw t (ground (arith, a, b, le, h, t))
      | inr f ↦
          let le = length-write_at offset bytes content in
          let a = get-copy_from_slice offset i bytes content (write_fits offset bytes content f) in
          rw f (ground (arith, a, le, h, f))
    ]

read_at-copied :
    (offset : ℕ) (bytes buf : List ℕ)
    → 0 < length bytes
    → offset + length bytes ≤ length buf
    → read_at offset (length bytes) (copy_from_slice offset bytes buf) ≡ bytes
unfolding read_at
read_at-copied offset bytes buf h fits =
    let len = length-copy_from_slice offset bytes buf in
    let inside : ltb offset (length (copy_from_slice offset bytes buf)) ≡ true =
      ground (arith, len, h, fits) in
    let whole : leb (offset + length bytes) (length (copy_from_slice offset bytes buf)) ≡ true =
      ground (arith, len, fits) in
    rw (inside, whole) (slice-copy_from_slice offset bytes buf fits)

pub read_at-write_at :
    (offset : ℕ) (bytes content : List ℕ)
    → 0 < length bytes
    → read_at offset (length bytes) (write_at offset bytes content) ≡ bytes
unfolding write_at
read_at-write_at offset bytes content h =
    elim (Bool-cases (ltb (length content) (offset + length bytes))) [
      | inl t ↦
          let long = length-resize (offset + length bytes) content in
          rw t (
            read_at-copied offset bytes (resize (offset + length bytes) content) h
              (omega (arith, long)))
      | inr f ↦ rw f (read_at-copied offset bytes content h (write_fits offset bytes content f))
    ]

pub read_at_le : (offset size : ℕ) (bytes : List ℕ) → length (read_at offset size bytes) ≤ size
unfolding read_at
read_at_le offset size bytes = ground (
  arith,
  length-slice offset (if leb (offset + size) (length bytes) then offset + size else length bytes)
      bytes,
)
