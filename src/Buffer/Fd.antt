-- ===== src/Buffer/Fd.antt =====
-- Buffer::readFd of src/Buffer.cpp.
use knet_lib.Common.{
  ℕ, ◌+◌, ◌-◌, ◌≤◌, ◌<◌, ◌≡◌, refl, sym, ap, ◌∙◌, max, ◌++◌, append_assoc, append-nil, List, [],
  ◌∷◌, inl, inr, arith, ltb, leb, length, take, drop, length-take, length-drop, take-append-drop,
  take_all, leb→le, leb→lt, if◌then◌else◌, Bool-cases, Outcome, ok, ◌>>=◌, Returns, Returns-map,
  Returns-bind,
}
use knet_lib.Memory.{splice, length-splice, slice-splice_end}
use knet_lib.Words.{add_size}
use knet_lib.Sys.{ReadResult, received, read_failed, received_bytes, sum, IsReadv, ReadResult-cases}
use knet_lib.Buffer.{Buffer, max_size, readable_bytes, writable_bytes, contents, append}
use knet_lib.Buffer.Valid.{IsValid, Holds, no_wrap, append-Returns}

abbrev pub extrabuf_size : ℕ
extrabuf_size = 65536

-- The sizes of the iovec: the writable bytes, then the buffer on the stack if they are fewer.
unfoldable pub iovec : Buffer → List ℕ
iovec b =
    if ltb (writable_bytes b) extrabuf_size
    then writable_bytes b ∷ extrabuf_size ∷ []
    else writable_bytes b ∷ []

-- The buffer after the kernel stored `bytes`, with the positions not yet moved.
filled : List ℕ → Buffer → Buffer
filled bytes b = record b {
  buffer = splice b.buffer b.writer_index (take (writable_bytes b) bytes);
}

-- What follows a successful readv.
pub take_in : List ℕ → Buffer → Outcome Buffer
unfolding filled
take_in bytes b =
    if leb (length bytes) (writable_bytes b)
    then ok (record (filled bytes b) { writer_index = add_size b.writer_index (length bytes) })
    else append (drop (writable_bytes b) bytes)
        (record (filled bytes b) { writer_index = length b.buffer })

pub read_fd : (List ℕ → ReadResult) → Buffer → Outcome (ReadResult × Buffer)
read_fd readv b = elim (readv (iovec b)) [
  | read_failed errno ↦ ok (read_failed errno, b)
  | received bytes ↦ do b' ← take_in bytes b; ok (received bytes, b')
]

-- The bytes that fit are written in place; `end` is the write position behind them.
fits-Holds :
    {b : Buffer} (bytes : List ℕ) (end : ℕ)
    → IsValid b
    → end ≡ b.writer_index + length bytes
    → end ≤ length b.buffer
    → Holds
        (contents b ++ bytes)
        (length b.buffer)
        (record b { buffer = splice b.buffer b.writer_index bytes; writer_index = end })
fits-Holds {b} bytes end v e h = ground (
  arith,
  no_wrap v,
  length-splice b.buffer b.writer_index bytes,
  slice-splice_end b.buffer b.reader_index (readable_bytes b) bytes b.writer_index
      (end - b.reader_index),
)

-- The bytes that do not fit go through `append`.
spills-Returns :
    {b : Buffer} (bytes : List ℕ)
    → IsValid b
    → writable_bytes b < length bytes
    → length b.buffer + length bytes ≤ max_size
    → Returns (Holds (contents b ++ bytes) (length b.buffer + length bytes)) (
        append
          (drop (writable_bytes b) bytes)
          (record (filled bytes b) { writer_index = length b.buffer }))
unfolding filled
spills-Returns {b} bytes v h small =
    let size = length-take (writable_bytes b) bytes in
    let rest = length-drop (writable_bytes b) bytes in
    let front =
      fits-Holds (take (writable_bytes b) bytes) (length b.buffer) v
        (omega (arith, size, no_wrap v)) (omega arith) in
    Returns-map _ (Holds (contents b ++ bytes) (length b.buffer + length bytes)) _
      (append-Returns (drop (writable_bytes b) bytes) front.0 (omega (arith, rest)))
      (λ c r. (
        r.0,
        r.1
            ∙ ap (λ cs. cs ++ drop (writable_bytes b) bytes) front.1
            ∙ append_assoc (contents b) _ _
            ∙ ap (λ cs. contents b ++ cs) (take-append-drop (writable_bytes b) bytes),
        omega (arith, r.2, rest),
      ))

take_in-Returns :
    {b : Buffer} (bytes : List ℕ)
    → IsValid b
    → length b.buffer + length bytes ≤ max_size
    → Returns (Holds (contents b ++ bytes) (length b.buffer + length bytes)) (take_in bytes b)
unfolding take_in
take_in-Returns {b} bytes v small = elim (Bool-cases (leb (length bytes) (writable_bytes b))) [
  | inl all ↦
      rw (all, filled)
        (ground (
          arith,
          no_wrap v,
          take_all (writable_bytes b) bytes (leb→le _ _ all),
          fits-Holds bytes (b.writer_index + length bytes) v,
        ))
  | inr more ↦ rw more (spills-Returns bytes v (leb→lt _ _ more) small)
]

-- The iovec ends at most 128k - 1 bytes ahead where the buffer on the stack is in it.
iovec-le : (b : Buffer) → sum (iovec b) ≤ max (writable_bytes b) 131071
unfolding iovec
iovec-le b = ground arith

-- `readFd` on a valid buffer returns what readv answered, appends the bytes that readv stored in
-- order, changes nothing on a failure, and takes in at most the writable bytes or 128k - 1 bytes,
-- whichever is more.
pub read_fd-Returns :
    {b : Buffer} (readv : List ℕ → ReadResult)
    → IsReadv readv
    → IsValid b
    → length b.buffer + max (writable_bytes b) 131071 ≤ max_size
    → Returns
        (λ (r, b').
          (r ≡ readv (iovec b))
          × IsValid b'
          × (contents b' ≡ contents b ++ received_bytes r)
          × (length (received_bytes r) ≤ max (writable_bytes b) 131071))
        (read_fd readv b)
unfolding read_fd
read_fd-Returns {b} readv io v small = elim (ReadResult-cases (readv (iovec b))) [
  | inl (errno, e) ↦ rw (e, read_fd) (refl, v, sym (append-nil (contents b)), omega arith)
  | inr (bytes, e) ↦
      let bound : length bytes ≤ max (writable_bytes b) 131071 =
        omega (arith, io (iovec b) bytes e, iovec-le b) in
      rw (e, read_fd)
        (Returns-bind (Holds (contents b ++ bytes) (length b.buffer + length bytes)) _
          (take_in bytes b) _ (take_in-Returns bytes v (omega (arith, bound)))
          (λ b' r. (refl, r.0, r.1, bound)))
]
