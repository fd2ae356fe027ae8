-- ===== src/Fuse/Octet.antt =====
-- Slices of bytes, as crates/daemon/src/fuse/jax_fs.rs takes and changes them.
use jax_fs.Prelude.{
  ℕ, zero, suc, ◌+◌, ◌-◌, ◌≤◌, ◌<◌, ◌≡◌, refl, ap, arith, Option, none, some, List, [], ◌∷◌, take,
  length, ltb, if◌then◌else◌,
}

-- `Vec::resize` with zeros.
abbrev pub resize : ℕ → List ℕ → List ℕ
resize zero buf = []
resize (suc n) [] = 0 ∷ resize n []
resize (suc n) (b ∷ buf) = b ∷ resize n buf

abbrev pub skip : ℕ → List ℕ → List ℕ
skip zero buf = buf
skip (suc n) [] = []
skip (suc n) (b ∷ buf) = skip n buf

-- `&data[start..end]`, for a start below the end, and an end within the data.
unfoldable pub slice : ℕ → ℕ → List ℕ → List ℕ
slice start end buf = take (end - start) (skip start buf)

-- `data[offset..offset + bytes.len()].copy_from_slice(bytes)`, for bytes that end within the data.
abbrev pub copy_from_slice : ℕ → List ℕ → List ℕ → List ℕ
copy_from_slice offset bytes [] = []
copy_from_slice zero [] (b ∷ buf) = b ∷ buf
copy_from_slice zero (c ∷ bytes) (b ∷ buf) = c ∷ copy_from_slice zero bytes buf
copy_from_slice (suc offset) bytes (b ∷ buf) = b ∷ copy_from_slice offset bytes buf

abbrev pub get_elem? : List ℕ → ℕ → Option ℕ
get_elem? [] i = none
get_elem? (b ∷ buf) zero = some b
get_elem? (b ∷ buf) (suc i) = get_elem? buf i

pub length-resize : (n : ℕ) (buf : List ℕ) → length (resize n buf) ≡ n
length-resize zero buf = refl
length-resize (suc n) [] = ap suc (length-resize n [])
length-resize (suc n) (b ∷ buf) = ap suc (length-resize n buf)

pub length-copy_from_slice :
    (offset : ℕ) (bytes buf : List ℕ) → length (copy_from_slice offset bytes buf) ≡ length buf
length-copy_from_slice offset bytes [] = refl
length-copy_from_slice zero [] (b ∷ buf) = refl
length-copy_from_slice zero (c ∷ bytes) (b ∷ buf) = ap suc (length-copy_from_slice zero bytes buf)
length-copy_from_slice (suc offset) bytes (b ∷ buf) =
    ap suc (length-copy_from_slice offset bytes buf)

take_le : (n : ℕ) (buf : List ℕ) → length (take n buf) ≤ n
take_le zero buf = omega arith
take_le (suc n) [] = omega arith
take_le (suc n) (b ∷ buf) = omega (arith, take_le n buf)

pub length-slice : (start end : ℕ) (buf : List ℕ) → length (slice start end buf) ≤ end - start
unfolding slice
length-slice start end buf = take_le (end - start) (skip start buf)

-- The bytes of what was resized: those that were there, then zeros.
pub get-resize :
    (n i : ℕ) (buf : List ℕ)
    → i < n
    → get_elem? (resize n buf) i ≡ (if ltb i (length buf) then get_elem? buf i else some 0)
get-resize zero i buf h = absurd (omega (arith, h))
get-resize (suc n) zero [] h = refl
get-resize (suc n) zero (b ∷ buf) h = ground arith
get-resize (suc n) (suc i) [] h = ground (arith, get-resize n i [], h)
get-resize (suc n) (suc i) (b ∷ buf) h = ground (arith, get-resize n i buf, h)

-- The bytes of what was copied into: outside of the slice, those that were there.
pub get-copy_from_slice :
    (offset i : ℕ) (bytes buf : List ℕ)
    → offset + length bytes ≤ length buf
    → get_elem? (copy_from_slice offset bytes buf) i ≡ (
        if ltb i offset
        then get_elem? buf i
        else if ltb i (offset + length bytes)
        then get_elem? bytes (i - offset)
        else get_elem? buf i)
get-copy_from_slice zero zero [] [] h = refl
get-copy_from_slice zero (suc i) [] [] h = ground arith
get-copy_from_slice (suc offset) i bytes [] h = absurd (omega (arith, h))
get-copy_from_slice zero i (c ∷ bytes) [] h = absurd (omega (arith, h))
get-copy_from_slice zero i [] (b ∷ buf) h = ground arith
get-copy_from_slice zero zero (c ∷ bytes) (b ∷ buf) h = ground arith
get-copy_from_slice zero (suc i) (c ∷ bytes) (b ∷ buf) h =
    ground (arith, get-copy_from_slice zero i bytes buf, h)
get-copy_from_slice (suc offset) zero bytes (b ∷ buf) h = ground arith
get-copy_from_slice (suc offset) (suc i) bytes (b ∷ buf) h =
    ground (arith, get-copy_from_slice offset i bytes buf, h)

take_of_copied :
    (offset : ℕ) (bytes buf : List ℕ)
    → offset + length bytes ≤ length buf
    → take (length bytes) (skip offset (copy_from_slice offset bytes buf)) ≡ bytes
take_of_copied zero [] [] h = refl
take_of_copied (suc offset) bytes [] h = absurd (omega (arith, h))
take_of_copied zero (c ∷ bytes) [] h = absurd (omega (arith, h))
take_of_copied zero [] (b ∷ buf) h = refl
take_of_copied zero (c ∷ bytes) (b ∷ buf) h =
    ap (λ r. c ∷ r) (take_of_copied zero bytes buf (omega (arith, h)))
take_of_copied (suc offset) bytes (b ∷ buf) h = take_of_copied offset bytes buf (omega (arith, h))

-- The slice that holds just the bytes that were copied.
pub slice-copy_from_slice :
    (offset : ℕ) (bytes buf : List ℕ)
    → offset + length bytes ≤ length buf
    → slice offset (offset + length bytes) (copy_from_slice offset bytes buf) ≡ bytes
unfolding slice
slice-copy_from_slice offset bytes buf h =
    let same : offset + length bytes - offset ≡ length bytes = omega arith in
    rw same (take_of_copied offset bytes buf h)
