-- ===== src/Fuse/Written.antt =====
-- What a write through a handle leaves in its buffer, and what reads give back.
use jax_fs.Prelude.{
  ℕ, ◌+◌, ◌-◌, ◌≤◌, ◌<◌, ◌≡◌, ◌≢◌, refl, sym, ◌∙◌, ap, subst, arith, true, false, Option, none,
  some, List, [], length, ltb, if◌then◌else◌, unwrap_or, Bool-cases, inl, inr,
}
use jax_fs.Prelude.Results.{Result, ok, err}
use jax_fs.Ord.{u64_ord, eq_of_==}
use jax_fs.BTreeMap.{get, get-insert_self, get-insert}
use jax_fs.Mount.Act.{fail_if-eq-ok, after-eq-ok}
use jax_fs.Fuse.Volume.{Volume}
use jax_fs.Fuse.Cache.{Caches, CachedContent}
use jax_fs.Fuse.Octet.{get_elem?}
use jax_fs.Fuse.State.{JaxFs, WriteBuffer, Errno, path_of}
use jax_fs.Fuse.Content.{
  read_at, write_at, no_buffer, buffered, put_buffer, bytes_of, or_through, read_through, read,
  write,
}
use jax_fs.Fuse.Fetch.{fetch_content}
use jax_fs.Fuse.Splice.{length-write_at, get-write_at, read_at-write_at, read_at_le}

module _ (m : Volume) (c : Caches) where
  abbrev pub content_before : ℕ → JaxFs m c → List ℕ
  content_before fh s = (unwrap_or (get fh s.write_buffers) no_buffer).content

  -- The state after a write that succeeds.
  pub write-ok :
      (fh offset n : ℕ) (bytes : List ℕ) (s s' : JaxFs m c)
      → write m c fh offset bytes s ≡ (s', ok n)
      → (s.read_only ≡ false)
        × (n ≡ length bytes)
        × (s'
            ≡ put_buffer m c fh
                (record { content = write_at offset bytes (content_before fh s); dirty = true })
                s)
  unfolding write
  write-ok fh offset n bytes s s' h =
      let (r, e) = fail_if-eq-ok s.read_only Errno.erofs s _ h in
      (r, sym (ap (λ x. unwrap_ok x.1) e), sym (ap (λ x. x.0) e))
    where
      unwrap_ok : Result Errno ℕ → ℕ
      unwrap_ok (ok k) = k
      unwrap_ok (err e) = n

  pub buffer-write :
      (fh offset n : ℕ) (bytes : List ℕ) (s s' : JaxFs m c)
      → write m c fh offset bytes s ≡ (s', ok n)
      → get fh s'.write_buffers
        ≡ some (record { content = write_at offset bytes (content_before fh s); dirty = true })
  buffer-write fh offset n bytes s s' h =
      let (r, k, e) = write-ok fh offset n bytes s s' h in
      rw e (get-insert_self fh _ s.write_buffers)

  -- A read that the buffer of its handle answers.
  read-buffered :
      (ino fh offset size : ℕ) (b : WriteBuffer) (s : JaxFs m c)
      → get fh s.write_buffers ≡ some b
      → offset < length b.content
      → read m c ino fh offset size s ≡ (s, ok (read_at offset size b.content))
  unfolding read
  read-buffered ino fh offset size b s e h =
      let inside : ltb offset (length b.content) ≡ true = ground (arith, h) in rw (e, inside) refl

  -- What was written through a handle, and is not empty, is read back through it at once, from any
  -- file number: the read changes nothing, and the write told how many bytes it took.
  pub read-write :
      (ino fh offset n : ℕ) (bytes : List ℕ) (s s' : JaxFs m c)
      → 0 < length bytes
      → write m c fh offset bytes s ≡ (s', ok n)
      → (n ≡ length bytes) × (read m c ino fh offset n s' ≡ (s', ok bytes))
  read-write ino fh offset n bytes s s' h e =
      let (r, k, w) = write-ok fh offset n bytes s s' e in
      let old = content_before fh s in
      let long = length-write_at offset bytes old in
      let there =
        read-buffered ino fh offset n _ s' (buffer-write fh offset n bytes s s' e)
          (ground (arith, long, h)) in
      let same : read_at offset n (write_at offset bytes old) ≡ bytes =
        rw k (read_at-write_at offset bytes old h) in
      (k, there ∙ ap (λ x. (s', ok x)) same)

  -- After a write that succeeds the buffer of the handle is as long as before, or up to the end of
  -- what was written if that is longer, and each of its bytes is one of those written, one that was
  -- there, or a zero before the offset; the buffers of other handles stay.
  pub get-write :
      (fh offset n : ℕ) (bytes : List ℕ) (s s' : JaxFs m c)
      → write m c fh offset bytes s ≡ (s', ok n)
      → (length (content_before fh s') ≡ (
          if ltb (length (content_before fh s)) (offset + length bytes)
          then offset + length bytes
          else length (content_before fh s)))
        × ((i : ℕ)
            → i < length (content_before fh s')
            → get_elem? (content_before fh s') i ≡ (
                if ltb i offset
                then (if ltb i (length (content_before fh s))
                    then get_elem? (content_before fh s) i
                    else some 0)
                else if ltb i (offset + length bytes)
                then get_elem? bytes (i - offset)
                else get_elem? (content_before fh s) i))
        × ((fh' : ℕ) → fh' ≢ fh → get fh' s'.write_buffers ≡ get fh' s.write_buffers)
  get-write fh offset n bytes s s' e =
      let (r, k, w) = write-ok fh offset n bytes s s' e in
      let old = content_before fh s in
      let new : content_before fh s' ≡ write_at offset bytes old =
        ap (λ o. (unwrap_or o no_buffer).content) (buffer-write fh offset n bytes s s' e) in
      (
        ap length new ∙ length-write_at offset bytes old,
        λ i h. rw new (get-write_at offset i bytes old (subst (λ x. i < length x) new h)),
        λ fh' ne. rw w (
            ground (
              arith,
              get-insert fh fh' (record { content = write_at offset bytes old; dirty = true })
                  s.write_buffers,
              eq_of_== fh' fh,
              ne,
            )),
      )

  bytes_of_le :
      (content : Option CachedContent) (offset size : ℕ) (bytes : List ℕ)
      → bytes_of m c content offset size ≡ ok bytes
      → length bytes ≤ size
  bytes_of_le none offset size bytes h = cc
  bytes_of_le (some content) offset size bytes h =
      let same : read_at offset size content.data_bytes ≡ bytes = ground (arith, h) in
      subst (λ x. length x ≤ size) same (read_at_le offset size content.data_bytes)

  through_le :
      (ino offset size : ℕ) (bytes : List ℕ) (s s' : JaxFs m c)
      → read_through m c ino offset size s ≡ (s', ok bytes)
      → length bytes ≤ size
  unfolding read_through
  through_le ino offset size bytes s s' h =
      let (s1, path, e1, f1) = after-eq-ok (path_of m c ino s) _ h in
      let (s2, content, e2, f2) = after-eq-ok (fetch_content m c path s1) _ f1 in
      bytes_of_le content offset size bytes (ap (λ x. x.1) f2)

  or_through_le :
      (b : Option WriteBuffer) (ino offset size : ℕ) (bytes : List ℕ) (s s' : JaxFs m c)
      → or_through m c (buffered offset size b) (read_through m c ino offset size) s
        ≡ (s', ok bytes)
      → length bytes ≤ size
  or_through_le none ino offset size bytes s s' h = through_le ino offset size bytes s s' h
  or_through_le (some b) ino offset size bytes s s' h =
      elim (Bool-cases (ltb offset (length b.content))) [
        | inl t ↦
            bytes_of_le (some (record { data_bytes = b.content; mime_type = [] })) offset size bytes
              (let f = ap (λ x. x.1) h in ground (arith, f, t))
        | inr f ↦ through_le ino offset size bytes s s' (ground (arith, h, f))
      ]

  -- A read that succeeds gives no more bytes than it was asked for, whether the buffer of the
  -- handle, the cache or the mount answers it.
  pub read_bounded :
      (ino fh offset size : ℕ) (bytes : List ℕ) (s s' : JaxFs m c)
      → read m c ino fh offset size s ≡ (s', ok bytes)
      → length bytes ≤ size
  unfolding read
  read_bounded ino fh offset size bytes s s' h =
      or_through_le (get fh s.write_buffers) ino offset size bytes s s' h
