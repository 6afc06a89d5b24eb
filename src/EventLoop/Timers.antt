-- ===== src/EventLoop/Timers.antt =====
-- src/EventLoop.cpp: runAt, runAfter, runEvery and cancelTimer, in the loop's thread. `now` is the
-- reading of the clock, and `p` the address of the new timer, which the caller gets.
use knet_lib.Common.{
  ℕ, ◌+◌, ◌≤◌, ◌≡◌, refl, true, [], ◌∷◌, Option, none, some, ltb, if◌then◌else◌, Outcome, ok,
  Returns, ◌>>=◌, arith, eq→==, Bool-cases, inl, inr, false≢true,
}
use knet_lib.TimerQueue
use knet_lib.TimerQueue.{
  Timer, Entry, new_timer, before, put, TimerQueue, Timespec, add_timer, add_in_loop, fire,
  fire_all, insert, handle_timers, get_expired, duration_from_now, is_first, same_entry,
}
use knet_lib.TimerQueue.Dangling.{fire_settles, put-same}

unfoldable pub run_at : ℕ → ℕ → ℕ → TimerQueue → Outcome TimerQueue
run_at now p when q = add_timer now p when 0 q

unfoldable pub run_after : ℕ → ℕ → ℕ → TimerQueue → Outcome TimerQueue
unfolding run_at
run_after now p interval q = run_at now p (now + interval) q

unfoldable pub run_every : ℕ → ℕ → ℕ → TimerQueue → Outcome TimerQueue
run_every now p interval q = add_timer now p (now + interval) interval q

unfoldable pub cancel_timer : ℕ → TimerQueue → Outcome TimerQueue
cancel_timer p q = TimerQueue.cancel_timer p q

-- The queue after the expiry of the one timer, which was due at `when`: put back one interval later
-- and the timerfd set for it, or deleted.
pub record IsSettled (p when interval now' : ℕ) (q : TimerQueue) : Type 0 where
  entries : q.timers ≡ (if ltb 0 interval then (when + interval, p) ∷ [] else [])
  timer : q.heap p ≡ (
      if ltb 0 interval
      then some (record (new_timer when interval) { when = when + interval })
      else none)
  rearmed : ltb 0 interval ≡ true → q.armed ≡ some (duration_from_now now' (when + interval))

module _ (callback : ℕ → TimerQueue → Outcome TimerQueue)
    (quiet : (p : ℕ) (q : TimerQueue) → callback p q ≡ ok q) where
  -- The one entry is taken out and its timer run.
  expired_alone :
      (now now' p when interval : ℕ) (heap : ℕ → Option Timer) (armed : Option Timespec)
      → when ≤ now
      → heap p ≡ some (new_timer when interval)
      → Returns (IsSettled p when interval now') (
          handle_timers callback true now now'
            (record { timers = (when, p) ∷ []; heap = heap; armed = armed }))
  unfolding handle_timers get_expired fire_all insert
  expired_alone now now' p when interval heap armed due e =
      let b : before (when, p) (now + 1, 0) ≡ true = ground arith in
      let q : TimerQueue = record { timers = []; heap = heap; armed = armed } in
      let f = fire_settles callback now p (new_timer when interval) q q e due refl (quiet p q) e in
      elim (Bool-cases (ltb 0 interval)) [
        | inl r ↦
            rw (b, f, r)
              (record {
                entries = rw r refl;
                timer = rw (r, eq→== p p refl) refl;
                rearmed = λ e. refl;
              })
        | inr r ↦
            rw (b, f, r)
              (record {
                entries = rw r refl;
                timer = rw (r, eq→== p p refl) refl;
                rearmed = λ e. absurd (false≢true (cc));
              })
      ]

  -- A timer that is added to an idle queue and expires.
  added_alone :
      (now p when interval later later' : ℕ) (q : TimerQueue)
      → q.timers ≡ []
      → when ≤ later
      → Returns
          (IsSettled p when interval later')
          (add_timer now p when interval q >>= handle_timers callback true later later')
  unfolding add_timer add_in_loop insert
  added_alone now p when interval later later' q idle due =
      rw (idle, eq→== when when refl, eq→== p p refl)
        (expired_alone later later' p when interval (put p (some (new_timer when interval)) q.heap)
          (some (duration_from_now now when)) due
          (put-same p (some (new_timer when interval)) q.heap))

  -- A timer that `runAfter` or `runEvery` sets in a loop without others, and that expires when it
  -- is due or later, is deleted after `runAfter`, and after `runEvery` with a positive interval is
  -- put back one interval after the time it was due, with the timerfd set for it; after `runEvery`
  -- with interval 0 it is deleted. The callback leaves the timers alone.
  pub timers_settle :
      (now p interval later later' : ℕ) (q : TimerQueue)
      → q.timers ≡ []
      → now + interval ≤ later
      → Returns
          (IsSettled p (now + interval) 0 later')
          (run_after now p interval q >>= handle_timers callback true later later')
        × Returns
            (IsSettled p (now + interval) interval later')
            (run_every now p interval q >>= handle_timers callback true later later')
  unfolding run_after run_at run_every
  timers_settle now p interval later later' q idle due = (
    added_alone now p (now + interval) 0 later later' q idle due,
    added_alone now p (now + interval) interval later later' q idle due,
  )
