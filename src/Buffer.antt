-- ===== src/Buffer.antt =====
-- include/knetlib/Buffer.h and src/Buffer.cpp: a byte buffer with a read and a write position in
-- one vector. Pointers into the vector are indices.
pub mod Valid
pub mod Fd
pub mod Session
pub mod Search
pub mod Integers
mod Tests
use knet_lib.Common.{
  ℕ, zero, suc, ◌+◌, ◌-◌, ◌^◌, ◌==◌, Bool, true, false, List, [], ◌∷◌, Option, none, some, ltb, leb,
  if◌then◌else◌, length, take, drop, replicate, Outcome, ok, crash, length_error, check, ◌>>=◌,
  ◌>>◌,
}
use knet_lib.Memory.{slice, splice, resize}
use knet_lib.Words.{add_size, sub_size, Endian, store, load, htobe}

-- A byte is a number below 256; bytes are only moved, but for the integers of `append_int`.
pub record Buffer : Type 0 where
  pub buffer : List ℕ
  pub reader_index : ℕ
  pub writer_index : ℕ

abbrev pub cheap_prepend : ℕ
cheap_prepend = 8

abbrev pub initial_size : ℕ
initial_size = 1024

-- max_size of a vector of bytes.
abbrev pub max_size : ℕ
max_size = 2 ^ 63 - 1

abbrev pub readable_bytes : Buffer → ℕ
readable_bytes b = sub_size b.writer_index b.reader_index

abbrev pub writable_bytes : Buffer → ℕ
writable_bytes b = sub_size (length b.buffer) b.writer_index

abbrev pub prependable_bytes : Buffer → ℕ
prependable_bytes b = b.reader_index

-- The bytes between the positions: `peek()` up to `beginWrite()`.
abbrev pub contents : Buffer → List ℕ
contents b = slice b.buffer b.reader_index (readable_bytes b)

-- The constructor, with its assertions.
pub new_buffer : ℕ → Outcome Buffer
new_buffer size = if ltb max_size (length fresh.buffer) then crash length_error else do
  check (readable_bytes fresh == 0)
  check (writable_bytes fresh == size)
  check (prependable_bytes fresh == cheap_prepend)
  ok fresh
  where
    fresh : Buffer
    fresh = record {
      buffer = replicate (add_size cheap_prepend size) 0;
      reader_index = cheap_prepend;
      writer_index = cheap_prepend;
    }

pub swap : Buffer → Buffer → Buffer × Buffer
swap a b = (
  record { buffer = b.buffer; reader_index = b.reader_index; writer_index = b.writer_index },
  record { buffer = a.buffer; reader_index = a.reader_index; writer_index = a.writer_index },
)

pub retrieve_all : Buffer → Buffer
retrieve_all b = record b { reader_index = cheap_prepend; writer_index = cheap_prepend }

pub retrieve : ℕ → Buffer → Outcome Buffer
retrieve len b = do
  check (leb len (readable_bytes b))
  ok (
      if ltb len (readable_bytes b)
      then record b { reader_index = add_size b.reader_index len }
      else retrieve_all b)

-- `end` is an index into the vector.
pub retrieve_until : ℕ → Buffer → Outcome Buffer
retrieve_until end b = do
  check (leb b.reader_index end)
  check (leb end b.writer_index)
  retrieve (sub_size end b.reader_index) b

pub retrieve_as_string : ℕ → Buffer → Outcome (List ℕ × Buffer)
retrieve_as_string len b = do
  check (leb len (readable_bytes b))
  let result = slice b.buffer b.reader_index len
  b' ← retrieve len b
  ok (result, b')

pub retrieve_all_as_string : Buffer → Outcome (List ℕ × Buffer)
retrieve_all_as_string b = retrieve_as_string (readable_bytes b) b

-- Room for `len` bytes: the vector grows, or the readable bytes move to the front. The ranges of
-- that std::copy overlap at most with the target first, so it is a move.
pub make_space : ℕ → Buffer → Outcome Buffer
make_space len b =
    if ltb (add_size (writable_bytes b) (prependable_bytes b)) (add_size len cheap_prepend)
    then grow (add_size b.writer_index len)
    else do
      check (ltb cheap_prepend b.reader_index)
      let readable = readable_bytes b
      let b' = moved readable
      check (readable == readable_bytes b')
      ok b'
  where
    grow : ℕ → Outcome Buffer
    grow size =
        if ltb max_size size
        then crash length_error
        else ok (record b { buffer = resize 0 size b.buffer })

    moved : ℕ → Buffer
    moved readable = record {
      buffer = splice b.buffer cheap_prepend (slice b.buffer b.reader_index readable);
      reader_index = cheap_prepend;
      writer_index = add_size cheap_prepend readable;
    }

pub ensure_writable_bytes : ℕ → Buffer → Outcome Buffer
ensure_writable_bytes len b = do
  b' ← (if ltb (writable_bytes b) len then make_space len b else ok b)
  check (leb len (writable_bytes b'))
  ok b'

pub has_written : ℕ → Buffer → Outcome Buffer
has_written len b = do
  check (leb len (writable_bytes b))
  ok (record b { writer_index = add_size b.writer_index len })

pub append : List ℕ → Buffer → Outcome Buffer
append bytes b = do
  b' ← ensure_writable_bytes (length bytes) b
  has_written (length bytes) (record b' { buffer = splice b'.buffer b'.writer_index bytes })

pub prepend : List ℕ → Buffer → Outcome Buffer
prepend bytes b = do
  check (leb (length bytes) (prependable_bytes b))
  let start = sub_size b.reader_index (length bytes)
  ok (record b { buffer = splice b.buffer start bytes; reader_index = start })

-- appendInt64, appendInt32, appendInt16 and appendInt8 are the widths 8, 4, 2 and 1.
pub append_int : Endian → ℕ → ℕ → Buffer → Outcome Buffer
append_int host width x b = append (store host width (htobe host width x)) b

pub prepend_int : Endian → ℕ → ℕ → Buffer → Outcome Buffer
prepend_int host width x b = prepend (store host width (htobe host width x)) b

pub peek_int : Endian → ℕ → Buffer → Outcome ℕ
peek_int host width b = do
  check (leb width (readable_bytes b))
  ok (htobe host width (load host (slice b.buffer b.reader_index width)))

pub read_int : Endian → ℕ → Buffer → Outcome (ℕ × Buffer)
read_int host width b = do result ← peek_int host width b; b' ← retrieve width b; ok (result, b')
