-- ===== src/AsyncLogging.antt =====
-- include/knetlib/AsyncLogging.h and src/AsyncLogging.cpp: two threads hand buffers of log bytes to
-- one another. A buffer has one owner at a time, so a pointer to one is its bytes, and `none` is the
-- null pointer. `append` and the locked part of a round of the thread are atomic: they hold the
-- mutex.
pub mod Written
pub mod Rounds
pub mod Losses
pub mod Threads
mod Tests
use knet_lib.Common.{
  ℕ, ◌+◌, ◌*◌, ◌<◌, Bool, true, false, not, ◌&&◌, ◌||◌, List, [], ◌∷◌, ◌++◌, Option, none, some,
  ltb, leb, length, take, suc, if◌then◌else◌, Outcome, ok, crash, assertion, null_pointer, check,
  ◌>>=◌, ◌>>◌,
}

abbrev pub buffer_size : ℕ
buffer_size = 64 * 1024

-- More buffers than this are not written at once.
abbrev pub max_buffers : ℕ
max_buffers = 25

-- The members that the mutex protects.
pub record Front : Type 0 where
  pub current_buffer : Option (List ℕ)
  pub next_buffer : Option (List ℕ)
  pub buffers : List (List ℕ)

-- The log file under its name, where it exists, and the files that it was renamed to, oldest first.
pub record Files : Type 0 where
  pub file : Option (List ℕ)
  pub rolled : List (List ℕ)

-- The buffers of `threadFunc`, and the files that it writes.
pub record Back : Type 0 where
  pub new_buffer1 : Option (List ℕ)
  pub new_buffer2 : Option (List ℕ)
  pub files : Files
  pub open files use *

pub record Logging : Type 0 where
  pub front : Front
  pub open front use *
  pub back : Back
  pub open back use *

-- The constructor and the first lines of `threadFunc`.
abbrev pub initial : Files → Logging
initial fs = record {
  front = record { current_buffer = some []; next_buffer = some []; buffers = [] };
  back = record { new_buffer1 = some []; new_buffer2 = some []; files = fs };
}

-- The buffer that takes the place of a full one.
abbrev pub fresh_buffer : Option (List ℕ) → List ℕ
fresh_buffer none = []
fresh_buffer (some b) = b

unfoldable pub append_to : List ℕ → List ℕ → Front → Front
append_to line current f =
    if ltb (length current + length line) buffer_size
    then record f { current_buffer = some (current ++ line) }
    else record {
      current_buffer = some (fresh_buffer f.next_buffer ++ line);
      next_buffer = none;
      buffers = f.buffers ++ current ∷ [];
    }

unfoldable pub append : List ℕ → Front → Outcome Front
unfolding append_to
append line f = elim f.current_buffer [
  | none ↦ crash null_pointer
  | some current ↦ ok (append_to line current f)
]

abbrev pub is_empty {ℓ} : {A : Type ℓ} → List A → Bool
is_empty [] = true
is_empty (x ∷ xs) = false

-- A current buffer with bytes in it joins those to be written.
abbrev pub hand_over : Option (List ℕ) → List (List ℕ) → Option (List ℕ) × List (List ℕ)
hand_over none buffers = (none, buffers)
hand_over (some []) buffers = (some [], buffers)
hand_over (some (x ∷ xs)) buffers = (none, buffers ++ (x ∷ xs) ∷ [])

-- `buffers_.pop_back()`, on a vector that is not empty.
abbrev pub pop_back {ℓ} : {A : Type ℓ} → List A → List A
pop_back [] = []
pop_back (x ∷ []) = []
pop_back (x ∷ y ∷ ys) = x ∷ pop_back (y ∷ ys)

-- The buffer for `newBuffer1` and the queue after it is taken: where the thread has none, the last
-- buffer of the queue is taken off it and emptied, and a new one is made if the queue is empty.
abbrev pub spare_buffer : Option (List ℕ) → List (List ℕ) → List ℕ × List (List ℕ)
spare_buffer (some b) buffers = (b, buffers)
spare_buffer none buffers = ([], pop_back buffers)

abbrev pub next_of : Option (List ℕ) → Option (List ℕ) → List ℕ
next_of (some b) new2 = b
next_of none new2 = fresh_buffer new2

abbrev pub left_of : Option (List ℕ) → Option (List ℕ) → Option (List ℕ)
left_of (some b) new2 = new2
left_of none new2 = none

-- The locked part of a round; the last component is `buffersToWrite`.
unfoldable pub collect : Logging → Logging × List (List ℕ)
collect l =
    let (current, handed) = hand_over l.current_buffer l.buffers in
    let (spare, queue) = spare_buffer l.new_buffer1 handed in
    (
      record {
        front = record {
          current_buffer = some spare;
          next_buffer = some (next_of l.next_buffer l.new_buffer2);
          buffers = [];
        };
        back = record {
          new_buffer1 = none;
          new_buffer2 = left_of l.next_buffer l.new_buffer2;
          files = l.files;
        };
      },
      queue,
    )

-- `rollFile`: the log file is renamed to a name that is not in use.
unfoldable pub roll_file : Files → Files
roll_file fs = elim fs.file [
  | none ↦ fs
  | some bytes ↦ record { file = none; rolled = fs.rolled ++ bytes ∷ [] }
]

unfoldable pub roll_if_full : ℕ → Files → Files
unfolding roll_file
roll_if_full roll_size fs = elim fs.file [
  | none ↦ fs
  | some bytes ↦ if leb roll_size (length bytes) then roll_file fs else fs
]

abbrev pub contents_of : Option (List ℕ) → List ℕ
contents_of none = []
contents_of (some bytes) = bytes

-- `fopen(.., "a")`, `fwrite` and `fclose`; nothing is written where the file does not open.
unfoldable pub write_buffer : Bool → List ℕ → Files → Files
write_buffer opens bytes fs =
    if opens then record fs { file = some (contents_of fs.file ++ bytes) } else fs

-- `opens i` tells whether the i-th `fopen` of the loop succeeds.
unfoldable pub write_buffers : ℕ → (ℕ → Bool) → List (List ℕ) → Files → Files
unfolding roll_if_full write_buffer
write_buffers roll_size opens [] fs = fs
write_buffers roll_size opens (b ∷ bs) fs =
    write_buffers roll_size (λ i. opens (suc i)) bs
      (write_buffer (opens 0) b (roll_if_full roll_size fs))

-- The part of a backlog that is written.
abbrev pub kept : List (List ℕ) → List (List ℕ)
kept queue = if ltb max_buffers (length queue) then take 2 queue else queue

-- A spare for the next round: a buffer that was written, emptied; the vector must have one.
abbrev pub refill : Option (List ℕ) → List (List ℕ) → Outcome (Option (List ℕ) × List (List ℕ))
refill (some b) written = ok (some b, written)
refill none [] = crash assertion
refill none (x ∷ xs) = ok (some [], pop_back (x ∷ xs))

-- The rest of a round, after the lock is released.
unfoldable pub write_out : ℕ → (ℕ → Bool) → Logging × List (List ℕ) → Outcome Logging
unfolding write_buffers
write_out roll_size opens (l, queue) = if is_empty queue then ok l else do
  (new1, rest) ← refill l.new_buffer1 (take 2 (kept queue))
  (new2, _) ← refill l.new_buffer2 rest
  ok record l {
    back = record {
      new_buffer1 = new1;
      new_buffer2 = new2;
      files = write_buffers roll_size opens (kept queue) l.files;
    };
  }

-- A round of the loop of `threadFunc`.
unfoldable pub round : ℕ → (ℕ → Bool) → Logging → Outcome Logging
unfolding collect write_out
round roll_size opens l = write_out roll_size opens (collect l)

-- `append` by another thread.
unfoldable pub log : List ℕ → Logging → Outcome Logging
unfolding append
log line l = do f ← append line l.front; ok record l { front = f }

abbrev pub concat : List (List ℕ) → List ℕ
concat [] = []
concat (x ∷ xs) = x ++ concat xs

-- What `threadFunc` does after its loop: all that is left goes to one file, which is not rolled.
unfoldable pub final_flush : Bool → Logging → Logging
unfolding write_buffer
final_flush opens l =
    let (current, handed) = hand_over l.current_buffer l.buffers in
    record {
      front = record l.front { current_buffer = current; buffers = [] };
      back = record l.back { files = write_buffer opens (concat handed) l.files };
    }
