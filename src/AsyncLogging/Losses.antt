-- ===== src/AsyncLogging/Losses.antt =====
-- What the loop of src/AsyncLogging.cpp does without its first spare buffer, which it lacks after a
-- round with nothing to write.
use knet_lib.AsyncLogging.{
  Files, Back, Logging, hand_over, collect, buffer_size, contents_of, write_out, round, log, concat,
  append, append_to, final_flush, write_buffer,
}
use knet_lib.AsyncLogging.Rounds.{pending, IsReady, HasSpares}
use knet_lib.AsyncLogging.Written.{logged, logged-write_buffer, concat-snoc}
use knet_lib.Common.{
  ℕ, ◌+◌, ◌<◌, ◌≡◌, refl, ap, Bool, true, List, [], ◌∷◌, ◌++◌, Option, none, some, length, Returns,
  ◌>>=◌, Returns-bind, Returns-map, lt→ltb, ◌∙◌, append-nil, arith,
}

round_parts :
    (n : ℕ) (opens : ℕ → Bool) (current next one two : Option (List ℕ)) (bs : List (List ℕ))
    (fs : Files)
    → one ≡ none
    → bs ≡ []
    → Returns
        (λ l'. (pending l'.front ≡ []) × (l'.files ≡ fs) × (l'.new_buffer1 ≡ none))
        (round n opens (record {
          front = record { current_buffer = current; next_buffer = next; buffers = bs };
          back = record { new_buffer1 = one; new_buffer2 = two; files = fs };
        }))
unfolding round collect write_out
round_parts n opens none next none two [] fs e f = (refl, refl, refl)
round_parts n opens (some []) next none two [] fs e f = (refl, refl, refl)
round_parts n opens (some (x ∷ xs)) next none two [] fs e f = (refl, refl, refl)
round_parts n opens current next none two (b ∷ bs) fs e f = absurd (cc)
round_parts n opens current next (some a) two bs fs e f = absurd (cc)

-- A round without the first spare buffer drops the bytes of the current buffer when they are all
-- there is to write, and leaves the next round without the spare buffer too.
pub round_loses :
    (roll_size : ℕ) (opens : ℕ → Bool) (l : Logging)
    → l.new_buffer1 ≡ none
    → l.buffers ≡ []
    → Returns
        (λ l'. (pending l'.front ≡ []) × (l'.files ≡ l.files) × (l'.new_buffer1 ≡ none))
        (round roll_size opens l)
round_loses roll_size opens l one bs =
    round_parts roll_size opens l.current_buffer l.next_buffer l.new_buffer1 l.new_buffer2 l.buffers
      l.files one bs

idle_parts :
    (n : ℕ) (opens : ℕ → Bool) (current next one two : Option (List ℕ)) (bs : List (List ℕ))
    (fs : Files)
    → concat bs ++ contents_of current ≡ []
    → bs ≡ []
    → contents_of one ≡ []
    → Returns
        (λ l'.
          (l'.files ≡ fs)
          × (l'.new_buffer1 ≡ none)
          × (l'.buffers ≡ [])
          × (l'.current_buffer ≡ some []))
        (round n opens (record {
          front = record { current_buffer = current; next_buffer = next; buffers = bs };
          back = record { new_buffer1 = one; new_buffer2 = two; files = fs };
        }))
unfolding round collect write_out
idle_parts n opens none next none two [] fs e f g = (refl, refl, refl, refl)
idle_parts n opens none next (some a) two [] fs e f g = (refl, refl, refl, ap some g)
idle_parts n opens (some []) next none two [] fs e f g = (refl, refl, refl, refl)
idle_parts n opens (some []) next (some a) two [] fs e f g = (refl, refl, refl, ap some g)
idle_parts n opens (some (x ∷ xs)) next one two [] fs e f g = absurd (cc)
idle_parts n opens current next one two (b ∷ bs) fs e f g = absurd (cc)

log_parts :
    (line : List ℕ) (current next : Option (List ℕ)) (bs : List (List ℕ)) (b : Back)
    → current ≡ some []
    → length line < buffer_size
    → Returns
        (λ l'. (l'.current_buffer ≡ some line) × (l'.buffers ≡ bs) × (l'.back ≡ b))
        (log line (record {
          front = record { current_buffer = current; next_buffer = next; buffers = bs };
          back = b;
        }))
unfolding log append append_to
log_parts line none next bs b e short = absurd (cc)
log_parts line (some (x ∷ xs)) next bs b e short = absurd (cc)
log_parts line (some []) next bs b e short =
    rw (lt→ltb (length {A = ℕ} [] + length line) buffer_size (omega (arith, short)))
      (refl, refl, refl)

-- A line appended after a round with nothing to write reaches no file: the next round takes it off
-- the pending bytes and writes nothing.
pub line_after_idle_lost :
    (roll_size : ℕ) (opens : ℕ → Bool) (l : Logging) (line : List ℕ)
    → IsReady l
    → pending l.front ≡ []
    → l.buffers ≡ []
    → length line < buffer_size
    → Returns
        (λ l'. (pending l'.front ≡ []) × (l'.files ≡ l.files))
        (round roll_size opens l >>= (λ l1. log line l1 >>= round roll_size opens))
line_after_idle_lost roll_size opens l line ready e f short =
    Returns-bind
      (λ l1.
        (l1.files ≡ l.files)
        × (l1.new_buffer1 ≡ none)
        × (l1.buffers ≡ [])
        × (l1.current_buffer ≡ some []))
      (λ l'. (pending l'.front ≡ []) × (l'.files ≡ l.files)) (round roll_size opens l)
      (λ l1. log line l1 >>= round roll_size opens)
      (idle_parts roll_size opens l.current_buffer l.next_buffer l.new_buffer1 l.new_buffer2
        l.buffers l.files e f (spare_empty l.new_buffer1 l.new_buffer2 ready.1))
      (λ l1 h1.
        Returns-bind
          (λ l2. (l2.current_buffer ≡ some line) × (l2.buffers ≡ l1.buffers) × (l2.back ≡ l1.back))
          (λ l'. (pending l'.front ≡ []) × (l'.files ≡ l.files)) (log line l1)
          (round roll_size opens)
          (log_parts line l1.current_buffer l1.next_buffer l1.buffers l1.back (h1.3) short)
          (λ l2 h2.
            Returns-map
              (λ l'. (pending l'.front ≡ []) × (l'.files ≡ l2.files) × (l'.new_buffer1 ≡ none))
              (λ l'. (pending l'.front ≡ []) × (l'.files ≡ l.files)) (round roll_size opens l2)
              (round_loses roll_size opens l2 (ap Back.new_buffer1 h2.2 ∙ h1.1) (h2.1 ∙ h1.2))
              (λ l' h3. (h3.0, h3.1 ∙ ap Back.files h2.2 ∙ h1.0))))
  where
    spare_empty : (one two : Option (List ℕ)) → HasSpares one two → contents_of one ≡ []
    spare_empty none two h = refl
    spare_empty (some a) none h = absurd h
    spare_empty (some a) (some b) h = h.0

-- At its end the logging thread writes all pending bytes after those in the log, in order, and
-- leaves none pending, where the file opens.
pub final_flush_complete :
    (l : Logging)
    → (logged (final_flush true l).files ≡ logged l.files ++ pending l.front)
      × (pending (final_flush true l).front ≡ [])
unfolding final_flush
final_flush_complete l = (flushed l.current_buffer l.buffers, emptied l.current_buffer l.buffers)
  where
    flushed :
        (o : Option (List ℕ)) (bs : List (List ℕ))
        → logged (write_buffer true (concat ((hand_over o bs).1)) l.files)
          ≡ logged l.files ++ (concat bs ++ contents_of o)
    flushed none bs = rw (append-nil (concat bs)) (logged-write_buffer (concat bs) l.files)
    flushed (some []) bs = rw (append-nil (concat bs)) (logged-write_buffer (concat bs) l.files)
    flushed (some (x ∷ xs)) bs =
        rw⁻¹ (concat-snoc bs (x ∷ xs)) (logged-write_buffer (concat (bs ++ (x ∷ xs) ∷ [])) l.files)

    emptied : (o : Option (List ℕ)) (bs : List (List ℕ)) → contents_of ((hand_over o bs).0) ≡ []
    emptied none bs = refl
    emptied (some []) bs = refl
    emptied (some (x ∷ xs)) bs = refl
