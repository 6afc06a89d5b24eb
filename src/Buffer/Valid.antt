-- ===== src/Buffer/Valid.antt =====
-- Buffer: the representation invariant, and what each operation does to the readable bytes.
use knet_lib.Common.{
  ℕ, ◌+◌, ◌-◌, ◌≤◌, ◌<◌, ◌≡◌, sym, ap, ◌∙◌, max, ◌++◌, List, [], true, inl, inr, arith, ltb, leb,
  length, take, drop, take_all, drop_all, length-replicate, ltb→lt, le→leb, Bool-cases, Returns,
  Returns-bind, Returns-map,
}
use knet_lib.Memory.{
  splice, length-splice, length-resize, length-slice, slice-splice, slice-splice_end,
  slice-splice_front, slice-resize, take-slice, drop-slice,
}
use knet_lib.Words.{add_size, sub_size}
use knet_lib.Buffer.{
  Buffer, max_size, cheap_prepend, readable_bytes, writable_bytes, contents, new_buffer,
  retrieve_all, retrieve, retrieve_until, retrieve_as_string, retrieve_all_as_string, make_space,
  ensure_writable_bytes, has_written, append, prepend,
}

-- 0 <= readerIndex <= writerIndex <= size: the three parts of the vector.
pub record IsValid (b : Buffer) : Type 0 where
  pub front : 8 ≤ length b.buffer
  pub ordered : b.reader_index ≤ b.writer_index
  pub inside : b.writer_index ≤ length b.buffer
  pub small : length b.buffer ≤ max_size

-- On a valid buffer no size_t subtraction wraps.
pub no_wrap :
    {b : Buffer}
    → IsValid b
    → (readable_bytes b ≡ b.writer_index - b.reader_index)
      × (writable_bytes b ≡ length b.buffer - b.writer_index)
no_wrap v = omega arith

-- A valid buffer whose readable bytes are `bytes`, and whose write position is at most `end`.
abbrev pub Holds : List ℕ → ℕ → Buffer → Type 0
Holds bytes end b = IsValid b × (contents b ≡ bytes) × (b.writer_index ≤ end)

-- The same, with room for `len` bytes behind them.
abbrev pub HoldsWithRoom : List ℕ → ℕ → ℕ → Buffer → Type 0
HoldsWithRoom bytes end len b =
    IsValid b
    × (contents b ≡ bytes)
    × (b.writer_index ≤ end)
    × (b.writer_index + len ≤ length b.buffer)

pub length-contents : {b : Buffer} → IsValid b → length (contents b) ≡ readable_bytes b
length-contents {b} v = length-slice b.buffer b.reader_index (readable_bytes b) (omega arith)

-- The constructor of a buffer that fits a vector passes its assertions and gives a valid, empty
-- buffer.
pub new_buffer-Returns : (size : ℕ) → size ≤ max_size - 8 → Returns (Holds [] 8) (new_buffer size)
unfolding new_buffer
new_buffer-Returns size h = ground (arith, length-replicate {A = ℕ} (add_size cheap_prepend size) 0)

-- `retrieve` of at most the readable bytes returns, keeps the buffer valid and drops that many
-- bytes from the front.
pub retrieve-Returns :
    {b : Buffer} (len : ℕ)
    → IsValid b
    → len ≤ length (contents b)
    → Returns (Holds (drop len (contents b)) (max 8 b.writer_index)) (retrieve len b)
unfolding retrieve retrieve_all
retrieve-Returns {b} len v h = ground (
  arith,
  no_wrap v,
  length-contents v,
  drop_all len (contents b),
  drop-slice b.buffer b.reader_index (readable_bytes b) len (add_size b.reader_index len)
      (readable_bytes b - len),
)

-- `prepend` of at most the prependable bytes returns, keeps the buffer valid and puts its bytes in
-- front of the readable ones.
pub prepend-Returns :
    {b : Buffer} (bytes : List ℕ)
    → IsValid b
    → length bytes ≤ b.reader_index
    → Returns (Holds (bytes ++ contents b) b.writer_index) (prepend bytes b)
unfolding prepend
prepend-Returns {b} bytes v h = ground (
  arith,
  no_wrap v,
  length-splice b.buffer (b.reader_index - length bytes) bytes,
  slice-splice_front b.buffer b.reader_index (b.writer_index - b.reader_index) bytes
      (b.reader_index - length bytes) (b.writer_index - (b.reader_index - length bytes)),
)

-- `makeSpace`, called where too few bytes are writable, keeps the readable bytes and leaves the
-- room that was asked for, if it fits a vector; its assertions hold.
pub make_space-Returns :
    {b : Buffer} (len : ℕ)
    → IsValid b
    → b.writer_index + len ≤ max_size
    → writable_bytes b < len
    → Returns (HoldsWithRoom (contents b) b.writer_index len) (make_space len b)
unfolding make_space
make_space-Returns {b} len v h k = ground (
  arith,
  no_wrap v,
  length-contents v,
  length-resize 0 (b.writer_index + len) b.buffer,
  slice-resize 0 b.buffer b.reader_index (readable_bytes b) (b.writer_index + len),
  length-splice b.buffer cheap_prepend (contents b),
  slice-splice b.buffer cheap_prepend (contents b) (readable_bytes b),
)

-- The room that `len` further bytes need, reached in place or in a larger vector.
pub ensure_writable_bytes-Returns :
    {b : Buffer} (len : ℕ)
    → IsValid b
    → b.writer_index + len ≤ max_size
    → Returns (HoldsWithRoom (contents b) b.writer_index len) (ensure_writable_bytes len b)
unfolding ensure_writable_bytes
ensure_writable_bytes-Returns {b} len v h = elim (Bool-cases (ltb (writable_bytes b) len)) [
  | inl short ↦ rw short (
      Returns-bind (HoldsWithRoom (contents b) b.writer_index len)
        (HoldsWithRoom (contents b) b.writer_index len) (make_space len b) _
        (make_space-Returns len v h (ltb→lt _ _ short)) (λ b' r. ground (arith, no_wrap r.0)))
  | inr room ↦ rw room (ground (arith, no_wrap v))
]

-- Bytes copied to the write position and then counted.
has_written-Returns :
    {b : Buffer} (bytes : List ℕ)
    → IsValid b
    → b.writer_index + length bytes ≤ length b.buffer
    → Returns
        (Holds (contents b ++ bytes) (b.writer_index + length bytes))
        (has_written (length bytes) (record b { buffer = splice b.buffer b.writer_index bytes }))
unfolding has_written
has_written-Returns {b} bytes v h = ground (
  arith,
  no_wrap v,
  length-splice b.buffer b.writer_index bytes,
  slice-splice_end b.buffer b.reader_index (b.writer_index - b.reader_index) bytes b.writer_index
      (b.writer_index + length bytes - b.reader_index),
)

-- `append` returns, keeps the buffer valid, and adds its bytes behind the readable ones, moving
-- the write position no further than it must, as long as the bytes fit a vector.
pub append-Returns :
    {b : Buffer} (bytes : List ℕ)
    → IsValid b
    → b.writer_index + length bytes ≤ max_size
    → Returns (Holds (contents b ++ bytes) (b.writer_index + length bytes)) (append bytes b)
unfolding append
append-Returns {b} bytes v h =
    Returns-bind (HoldsWithRoom (contents b) b.writer_index (length bytes))
      (Holds (contents b ++ bytes) (b.writer_index + length bytes))
      (ensure_writable_bytes (length bytes) b) _ (ensure_writable_bytes-Returns (length bytes) v h)
      (λ b' r.
        Returns-map _ _ (has_written (length bytes) _) (has_written-Returns bytes r.0 r.3)
          (λ c h. (h.0, h.1 ∙ ap (λ cs. cs ++ bytes) r.1, omega (arith, h.2, r.2))))

pub retrieve_as_string-Returns :
    {b : Buffer} (len : ℕ)
    → IsValid b
    → len ≤ length (contents b)
    → Returns
        (λ (s, b').
          (s ≡ take len (contents b)) × Holds (drop len (contents b)) (max 8 b.writer_index) b')
        (retrieve_as_string len b)
unfolding retrieve_as_string
retrieve_as_string-Returns {b} len v h =
    let room : leb len (readable_bytes b) ≡ true = ground (arith, length-contents v) in
    rw room (
      Returns-bind (Holds (drop len (contents b)) (max 8 b.writer_index)) _ (retrieve len b) _
        (retrieve-Returns len v h)
        (λ b' r. (
          sym (
              take-slice b.buffer b.reader_index (readable_bytes b) len
                (ground (arith, length-contents v))),
          r,
        )))

-- All readable bytes are taken, and the buffer is empty.
pub retrieve_all_as_string-Returns :
    {b : Buffer}
    → IsValid b
    → Returns
        (λ (s, b'). (s ≡ contents b) × Holds [] (max 8 b.writer_index) b')
        (retrieve_all_as_string b)
unfolding retrieve_all_as_string
retrieve_all_as_string-Returns {b} v =
    let size = length-contents v in
    let all = take_all (readable_bytes b) (contents b) (omega (arith, size)) in
    let none_left = drop_all (readable_bytes b) (contents b) (omega (arith, size)) in
    Returns-map _ (λ (s, b'). (s ≡ contents b) × Holds [] (max 8 b.writer_index) b') _
      (retrieve_as_string-Returns (readable_bytes b) v (omega (arith, size)))
      (λ (s, b') r. (r.0 ∙ all, (r.1.0, r.1.1 ∙ none_left, r.1.2)))

-- `retrieveUntil` a position between the read and the write position drops the bytes before it.
pub retrieve_until-Returns :
    {b : Buffer} (end : ℕ)
    → IsValid b
    → b.reader_index ≤ end
    → end ≤ b.writer_index
    → Returns
        (Holds (drop (end - b.reader_index) (contents b)) (max 8 b.writer_index))
        (retrieve_until end b)
unfolding retrieve_until
retrieve_until-Returns {b} end v h k =
    let size : sub_size end b.reader_index ≡ end - b.reader_index =
      omega (arith, v.small, v.inside) in
    rw (le→leb _ _ h, le→leb _ _ k, size)
      (retrieve-Returns (end - b.reader_index) v (omega (arith, length-contents v, no_wrap v)))

-- `append` keeps the size of the vector while the unread bytes, the new ones and the cheap prepend
-- fit into it.
pub append-length :
    {b : Buffer} (bytes : List ℕ)
    → IsValid b
    → length (contents b) + length bytes + cheap_prepend ≤ length b.buffer
    → Returns (λ b'. length b'.buffer ≡ length b.buffer) (append bytes b)
unfolding append ensure_writable_bytes make_space has_written
append-length {b} bytes v h = ground (
  arith,
  no_wrap v,
  length-contents v,
  length-splice b.buffer b.writer_index bytes,
  length-splice b.buffer cheap_prepend (contents b),
  length-splice (splice b.buffer cheap_prepend (contents b)) (8 + readable_bytes b) bytes,
)
