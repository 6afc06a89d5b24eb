-- ===== src/TimerQueue/Dangling.antt =====
-- TimerQueue: timers whose callback ends the timer itself, and the round of one that does not.
use knet_lib.Common.{
  ℕ, ◌+◌, ◌≤◌, ◌≡◌, refl, ◌∙◌, true, false, List, ◌∷◌, Option, none, some, if◌then◌else◌, eq→==,
  le→leb, Outcome, ok, crash, dangling, arith, ◌>>=◌, Bool-cases, inl, inr,
}
use knet_lib.TimerQueue.{
  Timer, Entry, before, put, Timespec, TimerQueue, cancel, cancel_timer, get_expired, fire,
  fire_all, settle, handle_timers, load_timer, insert, restart, erase_timer,
}

pub put-same : (p : ℕ) (t : Option Timer) (h : ℕ → Option Timer) → put p t h p ≡ t
put-same p t h = rw (eq→== p p refl) refl

pub loaded : (p : ℕ) (t : Timer) (h : ℕ → Option Timer) → h p ≡ some t → load_timer p h ≡ ok t
loaded p t h e = rw (e, load_timer) refl

not_loaded : (p : ℕ) (h : ℕ → Option Timer) → h p ≡ none → load_timer p h ≡ crash dangling
not_loaded p h e = rw (e, load_timer) refl

-- `cancelTimer` of a timer that lives and is not canceled.
pub canceled_once :
    (p : ℕ) (t : Timer) (q : TimerQueue)
    → q.heap p ≡ some t
    → t.canceled ≡ false
    → cancel_timer p q ≡ ok (record q { timers = erase_timer p q.timers; heap = put p none q.heap })
unfolding cancel_timer cancel
canceled_once p t q e live = simp (loaded p t q.heap e, live) refl

absent : (p : ℕ) (q : TimerQueue) → q.heap p ≡ none → cancel_timer p q ≡ crash dangling
unfolding cancel_timer
absent p q e = simp (not_loaded p q.heap e) refl

-- Canceling a timer that lives deletes it: canceling it a second time uses the deleted timer.
pub cancel_timer_twice :
    (p : ℕ) (t : Timer) (q : TimerQueue)
    → q.heap p ≡ some t
    → t.canceled ≡ false
    → (cancel_timer p q >>= cancel_timer p) ≡ crash dangling
cancel_timer_twice p t q e live =
    let again : cancel_timer p
          (record q { timers = erase_timer p q.timers; heap = put p none q.heap })
        ≡ crash dangling =
      gone_twice in
    simp (canceled_once p t q e live, again) refl
  where
    gone_twice :
        cancel_timer p (record q { timers = erase_timer p q.timers; heap = put p none q.heap })
        ≡ crash dangling
    gone_twice =
        absent p (record q { timers = erase_timer p q.timers; heap = put p none q.heap })
          (put-same p none q.heap)

fire_dangling :
    (callback : ℕ → TimerQueue → Outcome TimerQueue) (now p : ℕ) (t : Timer) (q q' : TimerQueue)
    → q.heap p ≡ some t
    → t.when ≤ now
    → t.canceled ≡ false
    → callback p q ≡ ok q'
    → q'.heap p ≡ none
    → fire callback now p q ≡ crash dangling
unfolding fire settle
fire_dangling callback now p t q q' e due live c gone =
    simp (loaded p t q.heap e, le→leb _ _ due, live, c, not_loaded p q'.heap gone) refl

-- If the earliest timer is due and lives, and its callback cancels the timer itself, `handleRead`
-- uses the deleted timer.
pub self_cancel_dangling :
    (callback : ℕ → TimerQueue → Outcome TimerQueue) (now now' when p : ℕ) (t : Timer)
    (es : List Entry) (heap : ℕ → Option Timer) (armed : Option Timespec)
    → heap p ≡ some t
    → t.when ≤ now
    → t.canceled ≡ false
    → when ≤ now
    → ((q : TimerQueue) → callback p q ≡ cancel_timer p q)
    → handle_timers callback true now now'
        (record { timers = (when, p) ∷ es; heap = heap; armed = armed })
      ≡ crash dangling
unfolding handle_timers get_expired fire_all
self_cancel_dangling callback now now' when p t es heap armed e d live due c =
    let b : before (when, p) (now + 1, 0) ≡ true = ground arith in
    let q : TimerQueue = record { timers = (get_expired now es).1; heap = heap; armed = armed } in
    let f : fire callback now p q ≡ crash dangling =
      fire_dangling callback now p t q _ e d live (c q ∙ canceled_once p t q e live)
        (put-same p none heap) in
    simp (b, f) refl

-- A due timer that lives is run once, and then, if the callback leaves the timer as it is, put
-- back one interval later if it repeats, and deleted if it does not.
pub fire_settles :
    (callback : ℕ → TimerQueue → Outcome TimerQueue) (now p : ℕ) (t : Timer) (q q' : TimerQueue)
    → q.heap p ≡ some t
    → t.when ≤ now
    → t.canceled ≡ false
    → callback p q ≡ ok q'
    → q'.heap p ≡ some t
    → fire callback now p q
      ≡ ok (
          if t.repeat
          then record q' {
            timers = insert (t.when + t.interval, p) q'.timers;
            heap = put p (some (record t { when = t.when + t.interval })) q'.heap;
          }
          else record q' { heap = put p none q'.heap })
unfolding fire settle restart
fire_settles callback now p t q q' e due live c kept = elim (Bool-cases t.repeat) [
  | inl r ↦ simp (loaded p t q.heap e, le→leb _ _ due, live, c, loaded p t q'.heap kept, r) refl
  | inr r ↦ simp (loaded p t q.heap e, le→leb _ _ due, live, c, loaded p t q'.heap kept, r) refl
]
