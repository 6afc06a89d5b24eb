-- ===== src/Logger/Async.antt =====
-- Logger: lines go through the logging thread to its file.
use knet_lib.Common.{
  ℕ, suc, ◌≤◌, ◌<◌, ◌≡◌, refl, ap, ap₂, ◌∙◌, Bool, true, false, List, [], ◌∷◌, ◌++◌, length,
  length-append, append-nil, Option, none, some, Outcome, ok, Returns-ok, ◌>>=◌, Returns,
  Returns-bind, arith,
}
use knet_lib.AsyncLogging.{Files, Logging, initial, max_buffers, round}
use knet_lib.AsyncLogging.Rounds.{pending, queue_of, IsReady, round-Returns}
use knet_lib.AsyncLogging.Written.{logged}
use knet_lib.AsyncLogging.Losses.{final_flush_complete}
use knet_lib.Text.{same_text_refl}
use knet_lib.Logger.{
  Logger, log_file_of, Place, at_test, in_wait, run_down, Logged, went_on, aborted, stop_async,
  set_async_logging, disable_async_logging,
}
use knet_lib.Logger.Format.{Call, rank}
use knet_lib.Logger.Lines.{log_calls, lines_of, Waits, After, WentOn, log_calls-After}

-- Without a logging thread there is none to stop.
started :
    (place : Place) (opens : Bool) (basename : List ℕ) (o : Option (List ℕ × Logging)) (l : Logger)
    → o ≡ none
    → set_async_logging place opens basename (record l { async_logging = o })
      ≡ ok (record l {
        async_logging = some (log_file_of basename, initial (l.disk (log_file_of basename)));
        use_async_logging = true;
      })
unfolding set_async_logging stop_async
started place opens basename none l e = refl
started place opens basename (some x) l e = absurd (cc)

-- Every file of the thread's round opens.
abbrev pub AllOpen : Place → Type 0
AllOpen at_test = Unit
AllOpen (in_wait roll_size opened) = (i : ℕ) → opened i ≡ true

-- The queue has one buffer more than those that wait in it, at most.
queue_of-length :
    (current next : Option (List ℕ)) (bs : List (List ℕ))
    → length (queue_of (record { current_buffer = current; next_buffer = next; buffers = bs }))
      ≤ suc (length bs)
queue_of-length none next bs = omega arith
queue_of-length (some []) next bs = omega arith
queue_of-length (some (x ∷ xs)) next bs = omega (arith, length-append bs ((x ∷ xs) ∷ []))

-- Wherever it is, a thread with bytes to write writes them all.
run_down-Returns :
    (place : Place) (a : Logging)
    → AllOpen place
    → IsReady a
    → 0 < length (pending a.front)
    → length a.buffers < max_buffers
    → Returns (λ a'. logged a'.files ≡ logged a.files ++ pending a.front) (run_down place true a)
unfolding run_down
run_down-Returns at_test a opened ready bytes few = (final_flush_complete a).0
run_down-Returns (in_wait roll_size opens) a opened ready bytes few =
    Returns-bind _ _ (round roll_size opens a) _
      (round-Returns roll_size opens a opened ready bytes
        (omega (arith, few, queue_of-length a.current_buffer a.next_buffer a.buffers)))
      (λ a' (ready', none_left, all).
        (final_flush_complete a').0
        ∙ ap (λ bs. logged a'.files ++ bs) none_left
        ∙ append-nil (logged a'.files)
        ∙ all)

-- What is in the file of a thread that is stopped.
abbrev pub IsFlushed : List ℕ → List ℕ → Logger → Logger → Type 0
IsFlushed name bytes l d =
    (logged (d.disk name) ≡ bytes)
    × (d.console ≡ l.console)
    × (d.async_logging ≡ none)
    × (d.use_async_logging ≡ false)

disabled :
    (place : Place) (name : List ℕ) (fs : Files) (bytes : List ℕ) (o : Option (List ℕ × Logging))
    (l : Logger)
    → AllOpen place
    → 0 < length bytes
    → Waits name fs bytes 0 o
    → Returns
        (IsFlushed name (logged fs ++ bytes) l)
        (disable_async_logging place true (record l { async_logging = o }))
unfolding disable_async_logging stop_async
disabled place name fs bytes none l opened pos h = absurd h
disabled place name fs bytes (some (n, a)) l opened pos (e, ready, files, p, few) =
    let (a', eq, all) = Returns-ok _ (run_down place true a) (
      run_down-Returns place a opened ready (omega (arith, pos, ap (λ bs. length bs) p))
        (omega (arith, few))) in
    rw eq (
      rw (e, same_text_refl name) (all ∙ ap₂ (λ (k : Files) bs. logged k ++ bs) files p),
      refl,
      refl,
      refl,
    )

-- The calls, and `disableAsyncLogging` after them if none aborted.
unfoldable pub logged_and_disabled : ℕ → List Call → Place → Logger → Outcome Logged
unfolding log_calls
logged_and_disabled pid cs place l = do
  r ← log_calls pid cs l
  elim r [
    | went_on l' ↦ (do d ← disable_async_logging place true l'; ok (went_on d))
    | aborted l' ↦ ok (aborted l')
  ]

-- The lines of at most 24 calls between `setAsyncLogging`, with no logging thread running before,
-- and `disableAsyncLogging` are in the log files of the thread after it, from the oldest on, all
-- those at or above the level, of which there is at least one, in order, behind what was there,
-- and none is on the console: wherever `stop` finds the thread, before a test of its loop or in
-- its wait, after which it does a round that may roll the file, if the files open and the thread
-- has taken no buffers before.
pub async_session :
    (pid : ℕ) (before place : Place) (opens : Bool) (basename : List ℕ) (cs : List Call)
    (l : Logger)
    → l.async_logging ≡ none
    → AllOpen place
    → length cs < max_buffers
    → 0 < length (lines_of pid (rank l.log_level) cs)
    → Returns
        (WentOn (
          IsFlushed
            (log_file_of basename)
            (logged (l.disk (log_file_of basename)) ++ lines_of pid (rank l.log_level) cs)
            l))
        (set_async_logging before opens basename l >>= logged_and_disabled pid cs place)
unfolding logged_and_disabled
async_session pid before place opens basename cs l e opened few pos =
    let name = log_file_of basename in
    let lines = lines_of pid (rank l.log_level) cs in
    let l0 : Logger = record l {
      async_logging = some (name, initial (l.disk name));
      use_async_logging = true;
    } in
    rw (started before opens basename l.async_logging l e) (
      Returns-bind (WentOn (After name (l.disk name) lines 0 l0)) _ (log_calls pid cs l0) _
        (log_calls-After pid cs name (l.disk name) [] l0
          (refl, (refl, (refl, refl)), refl, refl, omega (arith, few)) refl)
        (finished name lines l0 pos))
  where
    finished :
        (name lines : List ℕ) (l0 : Logger)
        → 0 < length lines
        → (r : Logged) → WentOn (After name (l0.disk name) lines 0 l0) r
        → Returns (WentOn (IsFlushed name (logged (l0.disk name) ++ lines) l0)) (elim r [
          | went_on l' ↦ (do d ← disable_async_logging place true l'; ok (went_on d))
          | aborted l' ↦ ok (aborted l')
        ])
    finished name lines l0 some_lines (aborted k) h = absurd h
    finished name lines l0 some_lines (went_on k) h =
        Returns-bind (IsFlushed name (logged (l0.disk name) ++ lines) k) _
          (disable_async_logging place true k) (λ d. ok (went_on d))
          (disabled place name (l0.disk name) lines k.async_logging k opened some_lines h.waits)
          (λ d f. (f.0, f.1 ∙ ap (λ (m : Logger). m.console) h.same, f.2, f.3))
