-- ===== src/AsyncLogging/Threads/Ordered.antt =====
-- AsyncLogging: while threads append, the log holds their lines in order.
use knet_lib.AsyncLogging.{
  max_buffers, Front, Back, Files, Logging, append, hand_over, collect, contents_of, write_out, log,
  concat, final_flush,
}
use knet_lib.AsyncLogging.Written.{logged, logged-write_buffer, concat-snoc}
use knet_lib.AsyncLogging.Rounds.{
  pending, queue_of, IsFed, HasSpares, IsReady, append-parts, write_out-Returns, after_swap,
  length_pos, length-snoc, hand_over-concat,
}
use knet_lib.AsyncLogging.Threads.{
  Writer, at_loop, in_wait, writing, ended, World, WriterStep, goes_in, takes, writes, flushes,
  writer_steps, appends, stops, Reach, here, next, IsServed, AllServed, started,
}
use knet_lib.Common.{
  ℕ, ◌≤◌, ◌<◌, ◌≡◌, ◌≢◌, refl, sym, ap, ap₂, subst, ◌∙◌, ◌⊎◌, inl, inr, Bool, true, List, [], ◌∷◌,
  ◌++◌, Option, none, some, length, ok, Returns, Returns-bind, append_assoc, append-nil, arith,
}

-- What the writing thread holds of the buffers while it writes them.
abbrev HasRest : Option (List ℕ) → Option (List ℕ) → List (List ℕ) → Type 0
HasRest one two queue =
    (one ≡ none)
    × ((two ≡ some []) ⊎ ((two ≡ none) × (2 ≤ length queue)))
    × (0 < length queue)
    × (length queue ≤ max_buffers)

-- The locked part of a round, where there are bytes.
record Taken (l : Logging) (r : Logging × List (List ℕ)) : Type 0 where
  fed : IsFed r.0.current_buffer r.0.next_buffer r.0.buffers
  rest : HasRest r.0.new_buffer1 r.0.new_buffer2 r.1
  nothing_left : pending r.0.front ≡ []
  same_files : r.0.files ≡ l.files
  all_taken : concat r.1 ≡ pending l.front

swapped :
    (l : Logging) (a d : List ℕ) (left : Option (List ℕ)) (queue : List (List ℕ))
    → a ≡ []
    → d ≡ []
    → ((left ≡ some []) ⊎ ((left ≡ none) × (2 ≤ length queue)))
    → 0 < length queue
    → length queue ≤ max_buffers
    → concat queue ≡ pending l.front
    → Taken l (after_swap a d left l.files, queue)
swapped l a d left queue ea ed spare some_ few all = record {
  fed = ed;
  rest = (refl, spare, some_, few);
  nothing_left = ea;
  same_files = refl;
  all_taken = all;
}

-- A state of the two threads from its parts.
abbrev parts :
    Option (List ℕ)
    → Option (List ℕ)
    → Option (List ℕ)
    → Option (List ℕ)
    → List (List ℕ)
    → Files
    → Logging
parts current spare one two bs fs = record {
  front = record { current_buffer = current; next_buffer = spare; buffers = bs };
  back = record { new_buffer1 = one; new_buffer2 = two; files = fs };
}

collect-parts :
    (current spare one two : Option (List ℕ)) (bs : List (List ℕ)) (fs : Files)
    → IsFed current spare bs
    → HasSpares one two
    → 0 < length (concat bs ++ contents_of current)
    → length ((hand_over current bs).1) ≤ max_buffers
    → Taken (parts current spare one two bs fs) (collect (parts current spare one two bs fs))
unfolding collect
collect-parts none spare one two bs fs fed spares bytes few = absurd fed
collect-parts (some c) spare none two bs fs fed spares bytes few = absurd spares
collect-parts (some c) spare (some a) none bs fs fed spares bytes few = absurd spares
collect-parts (some []) none (some a) (some b) bs fs fed spares bytes few =
    absurd (omega (arith, fed.1))
collect-parts (some []) (some d) (some a) (some b) bs fs fed spares bytes few =
    swapped (parts (some []) (some d) (some a) (some b) bs fs) a d (some b) bs spares.0 fed
      (inl (ap some spares.1))
      (length_pos bs (subst (λ xs. 0 < length xs) (append-nil (concat bs)) bytes)) few
      (sym (append-nil (concat bs)))
collect-parts (some (x ∷ xs)) (some d) (some a) (some b) bs fs fed spares bytes few =
    swapped (parts (some (x ∷ xs)) (some d) (some a) (some b) bs fs) a d (some b)
      (bs ++ (x ∷ xs) ∷ []) spares.0 fed (inl (ap some spares.1))
      (omega (arith, length-snoc bs (x ∷ xs))) few (concat-snoc bs (x ∷ xs))
collect-parts (some (x ∷ xs)) none (some a) (some b) bs fs fed spares bytes few =
    swapped (parts (some (x ∷ xs)) none (some a) (some b) bs fs) a b none (bs ++ (x ∷ xs) ∷ [])
      spares.0 spares.1 (inr (refl, omega (arith, length-snoc bs (x ∷ xs), fed.0)))
      (omega (arith, length-snoc bs (x ∷ xs))) few (concat-snoc bs (x ∷ xs))

collect-Taken :
    (l : Logging)
    → IsReady l
    → 0 < length (pending l.front)
    → length (queue_of l.front) ≤ max_buffers
    → Taken l (collect l)
collect-Taken l (fed, spares) bytes few =
    collect-parts l.current_buffer l.next_buffer l.new_buffer1 l.new_buffer2 l.buffers l.files fed
      spares bytes few

-- A line in the front; the writing thread's part is as it was.
log-Fed :
    (line : List ℕ) (l : Logging)
    → 0 < length line
    → IsFed l.current_buffer l.next_buffer l.buffers
    → Returns
        (λ l'.
          IsFed l'.current_buffer l'.next_buffer l'.buffers
          × (pending l'.front ≡ pending l.front ++ line)
          × (l'.back ≡ l.back))
        (log line l)
unfolding log
log-Fed line l pos fed =
    Returns-bind
      (λ f. IsFed f.current_buffer f.next_buffer f.buffers × (pending f ≡ pending l.front ++ line))
      _ (append line l.front) (λ f. ok (record l { front = f }))
      (append-parts line l.current_buffer l.next_buffer l.buffers pos fed) (λ f h. (h.0, h.1, refl))

-- The last flush takes all that is pending.
final_flush-parts :
    (current spare one two : Option (List ℕ)) (bs : List (List ℕ)) (fs : Files)
    → IsFed current spare bs
    → logged (final_flush true (parts current spare one two bs fs)).files
      ≡ logged fs ++ (concat bs ++ contents_of current)
unfolding final_flush
final_flush-parts none spare one two bs fs fed = absurd fed
final_flush-parts (some c) spare one two bs fs fed =
    logged-write_buffer (concat ((hand_over (some c) bs).1)) fs
    ∙ ap (λ bytes. logged fs ++ bytes) (hand_over-concat c bs)

-- Where the accepted bytes are, by the phase of the writing thread.
abbrev pub IsHeld : List ℕ → Logging → Writer → List ℕ → Type 0
IsHeld before l at_loop accepted =
    IsReady l × (logged l.files ++ pending l.front ≡ before ++ accepted)
IsHeld before l in_wait accepted =
    IsReady l × (logged l.files ++ pending l.front ≡ before ++ accepted)
IsHeld before l (writing queue) accepted =
    IsFed l.current_buffer l.next_buffer l.buffers
    × HasRest l.new_buffer1 l.new_buffer2 queue
    × (logged l.files ++ (concat queue ++ pending l.front) ≡ before ++ accepted)
IsHeld before l ended accepted = logged l.files ≡ before ++ accepted

abbrev pub IsOrdered : List ℕ → World → Type 0
IsOrdered before w = IsHeld before w.logging w.writer w.accepted

module _ (before : List ℕ) where
  taken-IsHeld :
      (l : Logging) (phase : Writer) (accepted : List ℕ)
      → phase ≡ in_wait
      → IsHeld before l phase accepted
      → 0 < length (pending l.front)
      → length (queue_of l.front) ≤ max_buffers
      → IsHeld before (collect l).0 (writing (collect l).1) accepted
  taken-IsHeld l phase accepted e h bytes few =
      let h' : IsHeld before l in_wait accepted = subst (λ p. IsHeld before l p accepted) e h in
      let t = collect-Taken l h'.0 bytes few in
      let files = ap logged t.same_files in
      let all = ap₂ (λ xs ys. xs ++ ys) t.all_taken t.nothing_left ∙ append-nil (pending l.front) in
      (t.fed, t.rest, ap₂ (λ xs ys. xs ++ ys) files all ∙ h'.1)

  written-IsHeld :
      (n : ℕ) (opens : ℕ → Bool) (queue : List (List ℕ)) (l l' : Logging) (phase : Writer)
      (accepted : List ℕ)
      → phase ≡ writing queue
      → write_out n opens (l, queue) ≡ ok l'
      → ((i : ℕ) → opens i ≡ true)
      → IsHeld before l phase accepted
      → IsHeld before l' at_loop accepted
  written-IsHeld n opens queue l l' phase accepted e r opened h =
      let h' : IsHeld before l (writing queue) accepted =
        subst (λ p. IsHeld before l p accepted) e h in
      let rest = h'.1 in
      let (spares, front, files) =
        rw r at (write_out-Returns n opens l queue opened rest.2 rest.3 rest.0 rest.1) in
      (
        (
          subst (λ (f : Front). IsFed f.current_buffer f.next_buffer f.buffers) (sym front) h'.0,
          spares,
        ),
        ap₂ (λ xs ys. xs ++ ys) files (ap pending front)
            ∙ append_assoc (logged l.files) (concat queue) (pending l.front)
            ∙ h'.2,
      )

  flushed-IsHeld :
      (l : Logging) (phase : Writer) (accepted : List ℕ)
      → phase ≡ at_loop
      → IsHeld before l phase accepted
      → IsHeld before (final_flush true l) ended accepted
  flushed-IsHeld l phase accepted e h =
      let h' : IsHeld before l at_loop accepted = subst (λ p. IsHeld before l p accepted) e h in
      final_flush-parts l.current_buffer l.next_buffer l.new_buffer1 l.new_buffer2 l.buffers l.files
        h'.0.0
      ∙ h'.1

  -- Outside a round.
  appended_outside :
      (line : List ℕ) (l l' : Logging) (accepted : List ℕ)
      → 0 < length line
      → log line l ≡ ok l'
      → IsHeld before l at_loop accepted
      → IsHeld before l' at_loop (accepted ++ line)
  appended_outside line l l' accepted pos e h =
      let (fed, bytes, back) = rw e at (log-Fed line l pos h.0.0) in
      (
        (fed, subst (λ (b : Back). HasSpares b.new_buffer1 b.new_buffer2) (sym back) h.0.1),
        ap₂ (λ xs ys. xs ++ ys) (ap (λ (b : Back). logged b.files) back) bytes
            ∙ sym (append_assoc (logged l.files) (pending l.front) line)
            ∙ ap (λ bs. bs ++ line) h.1
            ∙ append_assoc before accepted line,
      )

  appended-IsHeld :
      (line : List ℕ) (l l' : Logging) (phase : Writer) (accepted : List ℕ)
      → phase ≢ ended
      → 0 < length line
      → log line l ≡ ok l'
      → IsHeld before l phase accepted
      → IsHeld before l' phase (accepted ++ line)
  appended-IsHeld line l l' at_loop accepted going pos e h =
      appended_outside line l l' accepted pos e h
  appended-IsHeld line l l' in_wait accepted going pos e h =
      appended_outside line l l' accepted pos e h
  appended-IsHeld line l l' (writing queue) accepted going pos e h =
      let (fed, bytes, back) = rw e at (log-Fed line l pos h.0) in
      (
        fed,
        subst (λ (b : Back). HasRest b.new_buffer1 b.new_buffer2 queue) (sym back) h.1,
        ap₂ (λ xs ys. xs ++ ys) (ap (λ (b : Back). logged b.files) back)
              (ap (λ bs. concat queue ++ bs) bytes
                ∙ sym (append_assoc (concat queue) (pending l.front) line))
            ∙ sym (append_assoc (logged l.files) (concat queue ++ pending l.front) line)
            ∙ ap (λ bs. bs ++ line) h.2
            ∙ append_assoc before accepted line,
      )
  appended-IsHeld line l l' ended accepted going pos e h = absurd (going refl)

  module _ (n : ℕ) where
    WriterStep-IsOrdered :
        {w v : World} (s : WriterStep n w v)
        → IsServed n s
        → IsOrdered before w
        → IsOrdered before v
    WriterStep-IsOrdered {w} (goes_in e on) served h =
        subst (λ p. IsHeld before w.logging p w.accepted) e h
    WriterStep-IsOrdered {w} (takes e) served h =
        taken-IsHeld w.logging w.writer w.accepted e h served.0 served.1
    WriterStep-IsOrdered {w} (writes queue opens l e r) served h =
        written-IsHeld n opens queue w.logging l w.writer w.accepted e r served h
    WriterStep-IsOrdered {w} (flushes opens e off) served h =
        subst (λ b. IsHeld before (final_flush b w.logging) ended w.accepted) (sym served)
          (flushed-IsHeld w.logging w.writer w.accepted e h)

    pub Reach-IsOrdered :
        {w v : World} (r : Reach n w v) → AllServed n r → IsOrdered before w → IsOrdered before v
    Reach-IsOrdered here all h = h
    Reach-IsOrdered (next r (writer_steps s)) all h =
        WriterStep-IsOrdered s all.1 (Reach-IsOrdered r all.0 h)
    Reach-IsOrdered (next {w = u} r (appends line l going pos e)) all h =
        appended-IsHeld line u.logging l u.writer u.accepted going pos e (Reach-IsOrdered r all h)
    Reach-IsOrdered (next r stops) all h = Reach-IsOrdered r all h

-- However threads append lines while the writing thread takes the buffers, writes them and stops:
-- as long as each of its rounds finds bytes, in at most 25 buffers, and the files open, the log
-- files from the oldest on, then the buffers that are being written, then the pending ones hold
-- just what was there at the start and the bytes of all lines that were appended, in order. The
-- thread has the buffers that it needs, and at its end all is in the files.
pub accepted_in_order :
    (n : ℕ) (fs : Files) {w : World} (r : Reach n (started fs) w)
    → AllServed n r
    → IsOrdered (logged fs) w
accepted_in_order n fs r all = Reach-IsOrdered (logged fs) n r all ((refl, (refl, refl)), refl)
