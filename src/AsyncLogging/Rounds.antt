-- ===== src/AsyncLogging/Rounds.antt =====
-- What the two threads of src/AsyncLogging.cpp promise together: the lines that were appended reach
-- the log in order, as long as the writing thread has its two spare buffers.
use knet_lib.AsyncLogging.{
  buffer_size, max_buffers, Front, Files, Logging, append_to, append, hand_over, collect,
  contents_of, write_out, round, log, concat,
}
use knet_lib.AsyncLogging.Written.{logged, concat-snoc, logged-write_buffers}
use knet_lib.Common.{
  ℕ, suc, ◌+◌, ◌≤◌, ◌<◌, ltb, ◌≡◌, refl, sym, ap, Bool, true, Bool-cases, inl, inr, ◌⊎◌, List, [],
  ◌∷◌, ◌++◌, Option, none, some, length, length-append, le→ltb, subst, ◌∙◌, ok, Returns,
  Returns-bind, Returns-map, append_assoc, append-nil, arith,
}

-- The bytes that were appended and not yet handed to the writing thread.
abbrev pub pending : Front → List ℕ
pending f = concat f.buffers ++ contents_of f.current_buffer

-- The appending threads have a buffer, and where the spare one is in use both a full buffer waits
-- and the current one has bytes in it.
abbrev pub IsFed : Option (List ℕ) → Option (List ℕ) → List (List ℕ) → Type 0
IsFed none next bs = ⊥
IsFed (some c) none bs = (0 < length bs) × (0 < length c)
IsFed (some c) (some b) bs = b ≡ []

-- The writing thread holds its two spare buffers, both empty.
abbrev pub HasSpares : Option (List ℕ) → Option (List ℕ) → Type 0
HasSpares (some a) (some b) = (a ≡ []) × (b ≡ [])
HasSpares none b = ⊥
HasSpares (some a) none = ⊥

abbrev pub IsReady : Logging → Type 0
IsReady l = IsFed l.current_buffer l.next_buffer l.buffers × HasSpares l.new_buffer1 l.new_buffer2

-- The front after a line is appended, from the parts of the front before.
pub append-parts :
    (line : List ℕ) (current next : Option (List ℕ)) (bs : List (List ℕ))
    → 0 < length line
    → IsFed current next bs
    → Returns
        (λ f.
          IsFed f.current_buffer f.next_buffer f.buffers
          × (pending f ≡ (concat bs ++ contents_of current) ++ line))
        (append line (record { current_buffer = current; next_buffer = next; buffers = bs }))
unfolding append append_to
append-parts line none next bs pos h = absurd h
append-parts line (some c) (some b) bs pos h =
    elim (Bool-cases (ltb (length c + length line) buffer_size)) [
      | inl t ↦ rw t (h, sym (append_assoc (concat bs) c line))
      | inr t ↦ rw (t, h, concat-snoc bs c) ((ground (arith, length-append bs (c ∷ [])), pos), refl)
    ]
append-parts line (some c) none bs pos (some_wait, used) =
    elim (Bool-cases (ltb (length c + length line) buffer_size)) [
      | inl t ↦
          rw t (
            (some_wait, ground (arith, length-append c line)),
            sym (append_assoc (concat bs) c line),
          )
      | inr t ↦ rw (t, concat-snoc bs c) ((ground (arith, length-append bs (c ∷ [])), pos), refl)
    ]

-- Appending a line that is not empty returns, keeps the invariant of the two logging threads, and
-- puts the bytes of the line after those that wait.
pub log-Returns :
    (line : List ℕ) (l : Logging)
    → 0 < length line
    → IsReady l
    → Returns
        (λ l'. IsReady l' × (pending l'.front ≡ pending l.front ++ line) × (l'.back ≡ l.back))
        (log line l)
unfolding log
log-Returns line l pos (fed, spares) =
    Returns-bind
      (λ f. IsFed f.current_buffer f.next_buffer f.buffers × (pending f ≡ pending l.front ++ line))
      (λ l'. IsReady l' × (pending l'.front ≡ pending l.front ++ line) × (l'.back ≡ l.back))
      (append line l.front) (λ f. ok (record l { front = f }))
      (append-parts line l.current_buffer l.next_buffer l.buffers pos fed)
      (λ f h. ((h.0, spares), h.1, refl))

-- The queue that a round of the writing thread takes.
abbrev pub queue_of : Front → List (List ℕ)
queue_of f = (hand_over f.current_buffer f.buffers).1

pub hand_over-concat :
    (c : List ℕ) (bs : List (List ℕ)) → concat ((hand_over (some c) bs).1) ≡ concat bs ++ c
hand_over-concat [] bs = sym (append-nil (concat bs))
hand_over-concat (x ∷ xs) bs = concat-snoc bs (x ∷ xs)

pub write_out-Returns :
    (n : ℕ) (opens : ℕ → Bool) (l : Logging) (queue : List (List ℕ))
    → ((i : ℕ) → opens i ≡ true)
    → 0 < length queue
    → length queue ≤ max_buffers
    → l.new_buffer1 ≡ none
    → ((l.new_buffer2 ≡ some []) ⊎ ((l.new_buffer2 ≡ none) × (2 ≤ length queue)))
    → Returns
        (λ l'.
          HasSpares l'.new_buffer1 l'.new_buffer2
          × (l'.front ≡ l.front)
          × (logged l'.files ≡ logged l.files ++ concat queue))
        (write_out n opens (l, queue))
unfolding write_out
write_out-Returns n opens l [] opened some_queue few one two = absurd (omega arith)
write_out-Returns n opens l (x ∷ []) opened some_queue few one (inl two) =
    rw (one, two) ((refl, refl), refl, logged-write_buffers n opens (x ∷ []) l.files opened)
write_out-Returns n opens l (x ∷ []) opened some_queue few one (inr two) = absurd (omega arith)
write_out-Returns n opens l (x ∷ y ∷ zs) opened some_queue few one two =
    rw (le→ltb max_buffers (length (x ∷ y ∷ zs)) few, one)
      (elim two [
        | inl e ↦
            rw e ((refl, refl), refl, logged-write_buffers n opens (x ∷ y ∷ zs) l.files opened)
        | inr e ↦
            rw e.0 ((refl, refl), refl, logged-write_buffers n opens (x ∷ y ∷ zs) l.files opened)
      ])

-- The state that the locked part of a round leaves.
abbrev pub after_swap : List ℕ → List ℕ → Option (List ℕ) → Files → Logging
after_swap a d left fs = record {
  front = record { current_buffer = some a; next_buffer = some d; buffers = [] };
  back = record { new_buffer1 = none; new_buffer2 = left; files = fs };
}

-- The part of a round after the locked one.
written :
    (n : ℕ) (opens : ℕ → Bool) (a d : List ℕ) (left : Option (List ℕ)) (queue : List (List ℕ))
    (fs : Files)
    → ((i : ℕ) → opens i ≡ true)
    → a ≡ []
    → d ≡ []
    → 0 < length queue
    → length queue ≤ max_buffers
    → ((left ≡ some []) ⊎ ((left ≡ none) × (2 ≤ length queue)))
    → Returns
        (λ l'. IsReady l' × (pending l'.front ≡ []) × (logged l'.files ≡ logged fs ++ concat queue))
        (write_out n opens (after_swap a d left fs, queue))
written n opens a d left queue fs opened a_empty d_empty some_queue few spare =
    Returns-map
      (λ l'.
        HasSpares l'.new_buffer1 l'.new_buffer2
        × (l'.front ≡ (after_swap a d left fs).front)
        × (logged l'.files ≡ logged fs ++ concat queue))
      (λ l'. IsReady l' × (pending l'.front ≡ []) × (logged l'.files ≡ logged fs ++ concat queue))
      (write_out n opens (after_swap a d left fs, queue))
      (write_out-Returns n opens (after_swap a d left fs) queue opened some_queue few refl spare)
      (λ l' h. (
        (subst (λ f. IsFed f.current_buffer f.next_buffer f.buffers) (sym h.1) d_empty, h.0),
        ap pending h.1 ∙ a_empty,
        h.2,
      ))

pub length_pos : (bs : List (List ℕ)) → 0 < length (concat bs) → 0 < length bs
length_pos [] h = h
length_pos (b ∷ bs) h = omega arith

pub length-snoc : (bs : List (List ℕ)) (b : List ℕ) → length (bs ++ b ∷ []) ≡ suc (length bs)
length-snoc bs b = omega (arith, length-append bs (b ∷ []))

collected :
    (n : ℕ) (opens : ℕ → Bool) (current next one two : Option (List ℕ)) (bs : List (List ℕ))
    (fs : Files)
    → ((i : ℕ) → opens i ≡ true)
    → IsFed current next bs
    → HasSpares one two
    → 0 < length (concat bs ++ contents_of current)
    → length ((hand_over current bs).1) ≤ max_buffers
    → Returns
        (λ l'.
          IsReady l'
          × (pending l'.front ≡ [])
          × (logged l'.files ≡ logged fs ++ (concat bs ++ contents_of current)))
        (round n opens (record {
          front = record { current_buffer = current; next_buffer = next; buffers = bs };
          back = record { new_buffer1 = one; new_buffer2 = two; files = fs };
        }))
unfolding round collect
collected n opens none next one two bs fs opened fed spares bytes few = absurd fed
collected n opens (some c) next none two bs fs opened fed spares bytes few = absurd spares
collected n opens (some c) next (some a) none bs fs opened fed spares bytes few = absurd spares
collected n opens (some []) none (some a) (some b) bs fs opened fed spares bytes few =
    absurd (omega (arith, fed.1))
collected n opens (some []) (some d) (some a) (some b) bs fs opened fed spares bytes few =
    rw (append-nil (concat bs)) (
      written n opens a d (some b) bs fs opened spares.0 fed
        (length_pos bs (subst (λ xs. 0 < length xs) (append-nil (concat bs)) bytes)) few
        (inl (ap some spares.1)))
collected n opens (some (x ∷ xs)) (some d) (some a) (some b) bs fs opened fed spares bytes few =
    rw⁻¹ (concat-snoc bs (x ∷ xs)) (
      written n opens a d (some b) (bs ++ (x ∷ xs) ∷ []) fs opened spares.0 fed
        (omega (arith, length-snoc bs (x ∷ xs))) few (inl (ap some spares.1)))
collected n opens (some (x ∷ xs)) none (some a) (some b) bs fs opened fed spares bytes few =
    rw⁻¹ (concat-snoc bs (x ∷ xs)) (
      written n opens a b none (bs ++ (x ∷ xs) ∷ []) fs opened spares.0 spares.1
        (omega (arith, length-snoc bs (x ∷ xs))) few
        (inr (refl, omega (arith, length-snoc bs (x ∷ xs), fed.0))))

-- A round of the logging thread that holds its two spare buffers, with bytes to write, at most 25
-- buffers and files that open, fails no assertion, writes all pending bytes in order, whether or
-- not it rolls the file, and ends with its two spare buffers.
pub round-Returns :
    (roll_size : ℕ) (opens : ℕ → Bool) (l : Logging)
    → ((i : ℕ) → opens i ≡ true)
    → IsReady l
    → 0 < length (pending l.front)
    → length (queue_of l.front) ≤ max_buffers
    → Returns
        (λ l'.
          IsReady l'
          × (pending l'.front ≡ [])
          × (logged l'.files ≡ logged l.files ++ pending l.front))
        (round roll_size opens l)
round-Returns roll_size opens l opened (fed, spares) bytes few =
    collected roll_size opens l.current_buffer l.next_buffer l.new_buffer1 l.new_buffer2 l.buffers
      l.files opened fed spares bytes few
