-- ===== src/Buffer/Integers.antt =====
-- The integers of Buffer: appendInt64 and its kin write network byte order on any host, and what
-- they write is read back.
use knet_lib.Common.{
  ℕ, ◌+◌, ◌≤◌, ◌<◌, ◌≡◌, sym, ap, ◌∙◌, max, ◌++◌, List, true, arith, leb, length, take, drop,
  length-append, take-append, drop-append, le→leb, ◌>>=◌, Returns, Returns-map, Returns-bind,
}
use knet_lib.Memory.{slice, take-slice}
use knet_lib.Words.{Endian, int_bound, be_bytes, length-be_bytes, store-htobe, htobe-load}
use knet_lib.Buffer.{
  Buffer, max_size, readable_bytes, contents, retrieve, prepend, append_int, prepend_int, peek_int,
  read_int,
}
use knet_lib.Buffer.Valid.{
  IsValid, Holds, length-contents, append-Returns, prepend-Returns, retrieve-Returns,
}

-- `appendInt64` and its kin write network byte order behind the readable bytes, on a host of
-- either byte order.
pub append_int-Returns :
    {b : Buffer} (host : Endian) (width x : ℕ)
    → IsValid b
    → b.writer_index + width ≤ max_size
    → Returns
        (Holds (contents b ++ be_bytes width x) (b.writer_index + width))
        (append_int host width x b)
unfolding append_int
append_int-Returns {b} host width x v h = rw (store-htobe host width x) (
    Returns-map _ (Holds (contents b ++ be_bytes width x) (b.writer_index + width)) _
      (append-Returns (be_bytes width x) v (omega (arith, length-be_bytes width x)))
      (λ c r. (r.0, r.1, omega (arith, r.2, length-be_bytes width x))))

-- The readable bytes begin with an integer in network byte order.
module _ {b : Buffer} (host : Endian) (width x : ℕ) (rest : List ℕ) (v : IsValid b) where
  enough : contents b ≡ be_bytes width x ++ rest → width ≤ length (contents b)
  enough e =
      omega (arith, ap length e, length-append (be_bytes width x) rest, length-be_bytes width x)

  front :
      contents b ≡ be_bytes width x ++ rest → slice b.buffer b.reader_index width ≡ be_bytes width x
  front e =
      sym (
        take-slice b.buffer b.reader_index (readable_bytes b) width
          (omega (arith, enough e, length-contents v)))
      ∙ ap (take width) e
      ∙ take-append (be_bytes width x) rest width (sym (length-be_bytes width x))

  peek_int-Returns :
      x < int_bound width
      → contents b ≡ be_bytes width x ++ rest
      → Returns (λ y. y ≡ x) (peek_int host width b)
  unfolding peek_int
  peek_int-Returns h e =
      let fits : leb width (readable_bytes b) ≡ true =
        le→leb _ _ (omega (arith, enough e, length-contents v)) in
      rw (fits, front e) (htobe-load host width x h)

  -- `readInt64` and its kin take an integer in network byte order off the front of a valid buffer
  -- that begins with one.
  pub read_int-Returns :
      x < int_bound width
      → contents b ≡ be_bytes width x ++ rest
      → Returns (λ (y, b'). (y ≡ x) × IsValid b' × (contents b' ≡ rest)) (read_int host width b)
  unfolding read_int
  read_int-Returns h e =
      Returns-bind (λ y. y ≡ x) _ (peek_int host width b) _ (peek_int-Returns h e)
        (λ y p.
          Returns-bind (Holds (drop width (contents b)) (max 8 b.writer_index)) _ (retrieve width b)
            _ (retrieve-Returns width v (enough e))
            (λ b' r. (
              p,
              r.0,
              r.1
                  ∙ ap (drop width) e
                  ∙ drop-append (be_bytes width x) rest width (sym (length-be_bytes width x)),
            )))

-- An integer that fits its width, prepended on one host and read on a host of any byte order, is
-- the same integer, and the readable bytes are as before.
pub read_int-prepend_int :
    {b : Buffer} (host host' : Endian) (width x : ℕ)
    → IsValid b
    → width ≤ b.reader_index
    → x < int_bound width
    → Returns
        (λ (y, b'). (y ≡ x) × IsValid b' × (contents b' ≡ contents b))
        (prepend_int host width x b >>= read_int host' width)
unfolding prepend_int
read_int-prepend_int {b} host host' width x v room h = rw (store-htobe host width x) (
    Returns-bind (Holds (be_bytes width x ++ contents b) b.writer_index) _
      (prepend (be_bytes width x) b) _
      (prepend-Returns (be_bytes width x) v (omega (arith, length-be_bytes width x)))
      (λ c r. read_int-Returns host' width x (contents b) r.0 h r.1))
