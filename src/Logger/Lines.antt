-- ===== src/Logger/Lines.antt =====
-- Logger: where the lines are that wait for the logging thread.
use knet_lib.Common.{
  ℕ, suc, ◌+◌, ◌≤◌, ◌<◌, ◌≡◌, refl, sym, ap, subst, ◌∙◌, true, false, Bool-cases, inl, inr, List,
  [], ◌∷◌, ◌++◌, length, length-append, append_assoc, append-nil, Option, none, some, ltb,
  if◌then◌else◌, Outcome, ok, crash, Returns-ok, ◌>>=◌, Returns, Returns-bind, Returns-map, arith,
}
use knet_lib.AsyncLogging.{Back, Files, Logging, log, append, append_to, buffer_size, max_buffers}
use knet_lib.AsyncLogging.Rounds.{pending, IsReady, log-Returns}
use knet_lib.Logger.{Logger, emit, append_to_async_log, Logged, went_on, aborted, log_base}
use knet_lib.Logger.Format.{Call, rank, text_of}

-- The calls of a program, in order, as long as none aborts.
unfoldable pub log_calls : ℕ → List Call → Logger → Outcome Logged
unfolding log_base
log_calls pid [] l = ok (went_on l)
log_calls pid (c ∷ cs) l = do
  r ← log_base pid false c l
  elim r [ went_on l' ↦ log_calls pid cs l' | aborted l' ↦ ok (aborted l') ]

-- The line of a call at a level, and those of calls in order.
abbrev pub line_of : ℕ → ℕ → Call → List ℕ
line_of pid threshold c = if ltb (rank c.level) threshold then [] else text_of pid c

abbrev pub lines_of : ℕ → ℕ → List Call → List ℕ
lines_of pid threshold [] = []
lines_of pid threshold (c ∷ cs) = line_of pid threshold c ++ lines_of pid threshold cs

-- The logging thread of `name` runs, nothing is written to its file, and these bytes wait; `m` more
-- lines leave it with at most 25 buffers to write.
abbrev pub Waits : List ℕ → Files → List ℕ → ℕ → Option (List ℕ × Logging) → Type 0
Waits name fs bytes m none = ⊥
Waits name fs bytes m (some (n, a)) =
    (n ≡ name)
    × IsReady a
    × (a.files ≡ fs)
    × (pending a.front ≡ bytes)
    × (length a.buffers + m < max_buffers)

one_less :
    (name : List ℕ) (fs : Files) (bytes : List ℕ) (m : ℕ) (o : Option (List ℕ × Logging))
    → Waits name fs bytes (suc m) o
    → Waits name fs bytes m o
one_less name fs bytes m none h = absurd h
one_less name fs bytes m (some (n, a)) (e, ready, files, p, few) =
    (e, ready, files, p, omega (arith, few))

-- A line puts at most one buffer into the queue.
buffers_of-log :
    (line : List ℕ) (current next : Option (List ℕ)) (bs : List (List ℕ)) (b : Back) (a' : Logging)
    → log line (record {
      front = record { current_buffer = current; next_buffer = next; buffers = bs };
      back = b;
    })
      ≡ ok a'
    → length a'.buffers ≤ suc (length bs)
unfolding log append append_to
buffers_of-log line none next bs b a' e = absurd (cc)
buffers_of-log line (some c) next bs b a' e =
    elim (Bool-cases (ltb (length c + length line) buffer_size)) [
      | inl t ↦ omega (arith, ap buffers_of_ok (rw t at e))
      | inr t ↦ omega (arith, ap buffers_of_ok (rw t at e), length-append bs (c ∷ []))
    ]
  where
    buffers_of_ok : Outcome Logging → ℕ
    buffers_of_ok (ok a) = length a.buffers
    buffers_of_ok (crash k) = 0

pos-snoc : (xs : List ℕ) (y : ℕ) → 0 < length (xs ++ y ∷ [])
pos-snoc xs y = omega (arith, length-append xs (y ∷ []))

pub text_of-pos : (pid : ℕ) (c : Call) → 0 < length (text_of pid c)
unfolding text_of
text_of-pos pid c = pos-snoc _ 10

-- A line joins those that wait.
append-Waits :
    (name : List ℕ) (fs : Files) (bytes line : List ℕ) (m : ℕ) (o : Option (List ℕ × Logging))
    (l : Logger)
    → 0 < length line
    → Waits name fs bytes (suc m) o
    → Returns
        (λ l'.
          Waits name fs (bytes ++ line) m l'.async_logging
          × (l' ≡ record l { async_logging = l'.async_logging }))
        (append_to_async_log line (record l { async_logging = o }))
unfolding append_to_async_log
append-Waits name fs bytes line m none l pos h = absurd h
append-Waits name fs bytes line m (some (n, a)) l pos (e, ready, files, p, few) =
    let (a', eq, (ready', p', b)) = Returns-ok _ (log line a) (log-Returns line a pos ready) in
    let one = buffers_of-log line a.current_buffer a.next_buffer a.buffers a.back a' eq in
    rw eq (
      (
        e,
        ready',
        ap (λ (k : Back). k.files) b ∙ files,
        p' ∙ ap (λ bs. bs ++ line) p,
        omega (arith, one, few),
      ),
      refl,
    )

-- The variables are as before, but for the logging thread.
abbrev pub OnlyAsync : Logger → Logger → Type 0
OnlyAsync l l' = l' ≡ record l { async_logging = l'.async_logging }

-- What calls leave that return.
pub record After (name : List ℕ) (fs : Files) (bytes : List ℕ) (m : ℕ) (l l' : Logger)
    : Type 0 where
  pub waits : Waits name fs bytes m l'.async_logging
  pub same : OnlyAsync l l'

abbrev pub WentOn : (Logger → Type 0) → Logged → Type 0
WentOn P (went_on l) = P l
WentOn P (aborted l) = ⊥

log_base-After :
    (pid : ℕ) (c : Call) (name : List ℕ) (fs : Files) (bytes : List ℕ) (m : ℕ) (l : Logger)
    → Waits name fs bytes (suc m) l.async_logging
    → l.use_async_logging ≡ true
    → Returns
        (WentOn (After name fs (bytes ++ line_of pid (rank l.log_level) c) m l))
        (log_base pid false c l)
unfolding log_base emit
log_base-After pid c name fs bytes m l w u =
    elim (Bool-cases (ltb (rank c.level) (rank l.log_level))) [
      | inl below ↦ rw below (record {
        waits =
            subst (λ bs. Waits name fs bs m l.async_logging) (sym (append-nil bytes))
              (one_less name fs bytes m l.async_logging w);
        same = refl;
      })
      | inr above ↦
          simp (above, u)
            (Returns-bind _ _ (append_to_async_log (text_of pid c) l) _
              (append-Waits name fs bytes (text_of pid c) m l.async_logging l (text_of-pos pid c) w)
              (λ l' (w', e). record { waits = w'; same = e }))
    ]

-- What follows a call that returned.
joined :
    (pid : ℕ) (c : Call) (cs : List Call) (name : List ℕ) (fs : Files) (bytes : List ℕ)
    (l l' : Logger)
    → OnlyAsync l l'
    → (r : Logged)
    → WentOn
        (After name fs
          ((bytes ++ line_of pid (rank l.log_level) c) ++ lines_of pid (rank l'.log_level) cs)
          0
          l')
        r
    → WentOn (After name fs (bytes ++ lines_of pid (rank l.log_level) (c ∷ cs)) 0 l) r
joined pid c cs name fs bytes l l' e (aborted k) h = absurd h
joined pid c cs name fs bytes l l' e (went_on k) h =
    let threshold : rank l'.log_level ≡ rank l.log_level =
      ap (λ (m : Logger). rank m.log_level) e in
    record {
      waits =
          subst (λ bs. Waits name fs bs 0 k.async_logging)
            (ap (λ n. (bytes ++ line_of pid (rank l.log_level) c) ++ lines_of pid n cs) threshold
              ∙ append_assoc bytes (line_of pid (rank l.log_level) c)
                  (lines_of pid (rank l.log_level) cs))
            h.waits;
      same = h.same ∙ ap (λ (m : Logger). record m { async_logging = k.async_logging }) e;
    }

pub log_calls-After :
    (pid : ℕ) (cs : List Call) (name : List ℕ) (fs : Files) (bytes : List ℕ) (l : Logger)
    → Waits name fs bytes (length cs) l.async_logging
    → l.use_async_logging ≡ true
    → Returns
        (WentOn (After name fs (bytes ++ lines_of pid (rank l.log_level) cs) 0 l))
        (log_calls pid cs l)
unfolding log_calls
log_calls-After pid [] name fs bytes l w u = record {
  waits = subst (λ bs. Waits name fs bs 0 l.async_logging) (sym (append-nil bytes)) w;
  same = refl;
}
log_calls-After pid (c ∷ cs) name fs bytes l w u =
    let line = line_of pid (rank l.log_level) c in
    Returns-bind (WentOn (After name fs (bytes ++ line) (length cs) l)) _ (log_base pid false c l) _
      (log_base-After pid c name fs bytes (length cs) l w u)
      (after (λ l' w' u'. log_calls-After pid cs name fs (bytes ++ line) l' w' u'))
  where
    after :
        ((l' : Logger)
          → Waits name fs (bytes ++ line_of pid (rank l.log_level) c) (length cs) l'.async_logging
          → l'.use_async_logging ≡ true
          → Returns
              (WentOn (
                After name fs
                  ((bytes ++ line_of pid (rank l.log_level) c)
                    ++ lines_of pid (rank l'.log_level) cs)
                  0
                  l'))
              (log_calls pid cs l'))
        → (r : Logged)
        → WentOn (After name fs (bytes ++ line_of pid (rank l.log_level) c) (length cs) l) r
        → Returns
            (WentOn (After name fs (bytes ++ lines_of pid (rank l.log_level) (c ∷ cs)) 0 l))
            (elim r [ went_on l' ↦ log_calls pid cs l' | aborted l' ↦ ok (aborted l') ])
    after ih (aborted l') h = absurd h
    after ih (went_on l') h =
        Returns-map _ _ (log_calls pid cs l')
          (ih l' h.waits (ap (λ (k : Logger). k.use_async_logging) h.same ∙ u))
          (joined pid c cs name fs bytes l l' h.same)
