-- ===== src/TimerQueue/Kept.antt =====
-- TimerQueue: every operation keeps the set and the heap together.
use knet_lib.Common.{
  ℕ, ◌+◌, ◌≤◌, ◌==◌, ◌≡◌, refl, sym, ap, ◌∙◌, true, false, List, [], Option, none, some, Bool-cases,
  inl, inr, Returns, arith, eq→==, ==_iff, ◌⊎◌,
}
use knet_lib.TimerQueue.{
  Timer, Timespec, new_timer, Entry, TimerQueue, put, insert, is_first, add_in_loop, add_timer,
  cancel_timer, erase_timer,
}
use knet_lib.TimerQueue.Dangling.{canceled_once, put-same}
use knet_lib.TimerQueue.Expiry.{IsSorted, insert-IsSorted, erase_timer-IsSorted}
use knet_lib.TimerQueue.Linked.{
  IsTimerAt, AllLinked, times, times-insert_le, AllLinked-insert, AllLinked-put, times-none,
  is_member-times, times-erase_timer, times-erased, AllLinked-erase_timer,
}

-- The entries of the set, and those that a round has taken out and not yet run, have each a timer of
-- its own, with the entry's time and not canceled, and the set is in order.
pub record IsKept (pending : List Entry) (q : TimerQueue) : Type 0 where
  pub live : AllLinked q.heap q.timers
  pub waiting : AllLinked q.heap pending
  pub single : (p : ℕ) → times p q.timers + times p pending ≤ 1
  pub sorted : IsSorted q.timers

-- A timer put on the heap with its entry in the set.
pub entered :
    (pending : List Entry) (p when : ℕ) (t : Timer) (q : TimerQueue)
    → IsKept pending q
    → times p q.timers ≡ 0
    → times p pending ≡ 0
    → t.when ≡ when
    → t.canceled ≡ false
    → IsKept pending (record q { timers = insert (when, p) q.timers; heap = put p (some t) q.heap })
entered pending p when t q k z z' e f =
    let at_ : IsTimerAt when (put p (some t) q.heap p) = rw (eq→== p p refl) (e, f) in
    record {
      live =
          AllLinked-insert (put p (some t) q.heap) (when, p) q.timers at_
            (AllLinked-put p (some t) q.heap q.timers z k.live);
      waiting = AllLinked-put p (some t) q.heap pending z' k.waiting;
      single = λ r. one_more r (Bool-cases (p == r));
      sorted = insert-IsSorted (when, p) q.timers k.sorted;
    }
  where
    one_more :
        (r : ℕ)
        → ((p == r) ≡ true) ⊎ ((p == r) ≡ false)
        → times r (insert (when, p) q.timers) + times r pending ≤ 1
    one_more r (inl s) =
        let same : p ≡ r = (==_iff p r).0 s in
        ground (
          arith,
          s,
          times-insert_le r (when, p) q.timers,
          sym (ap (λ x. times x q.timers) same) ∙ z,
          sym (ap (λ x. times x pending) same) ∙ z',
        )
    one_more r (inr s) = ground (arith, s, times-insert_le r (when, p) q.timers, k.single r)

-- Adding a timer at an address that is not in use returns and keeps the set and the heap together,
-- whatever entries a round has taken out and not yet run.
pub add_timer-IsKept :
    (pending : List Entry) (now p when interval : ℕ) (q : TimerQueue)
    → IsKept pending q
    → q.heap p ≡ none
    → Returns (IsKept pending) (add_timer now p when interval q)
unfolding add_timer add_in_loop
add_timer-IsKept pending now p when interval q k free =
    let z = times-none p q.heap q.timers free k.live in
    let z' = times-none p q.heap pending free k.waiting in
    let r = entered pending p when (new_timer when interval) q k z z' refl refl in
    rw (is_member-times when p q.timers z)
      (elim (Bool-cases (is_first (when, p) (insert (when, p) q.timers))) [
        | inl f ↦ rw f (armed_anyway r)
        | inr f ↦ rw f r
      ])
  where
    armed_anyway :
        {q' : TimerQueue} {a : Option Timespec}
        → IsKept pending q'
        → IsKept pending (record q' { armed = a })
    armed_anyway k = record {
      live = k.live;
      waiting = k.waiting;
      single = k.single;
      sorted = k.sorted;
    }

-- The new timer is on the heap.
pub add_timer-heap :
    (now p when interval : ℕ) (q : TimerQueue)
    → IsKept [] q
    → q.heap p ≡ none
    → Returns (λ q'. q'.heap p ≡ some (new_timer when interval)) (add_timer now p when interval q)
unfolding add_timer add_in_loop
add_timer-heap now p when interval q k free =
    let z = times-none p q.heap q.timers free k.live in
    let same = put-same p (some (new_timer when interval)) q.heap in
    rw (is_member-times when p q.timers z)
      (elim (Bool-cases (is_first (when, p) (insert (when, p) q.timers))) [
        | inl f ↦ rw f same
        | inr f ↦ rw f same
      ])

-- Canceling a live timer that no entry of the present round has returns and keeps the set and the
-- heap together.
pub cancel_timer-IsKept :
    (pending : List Entry) (p : ℕ) (t : Timer) (q : TimerQueue)
    → IsKept pending q
    → q.heap p ≡ some t
    → t.canceled ≡ false
    → times p pending ≡ 0
    → Returns (IsKept pending) (cancel_timer p q)
cancel_timer-IsKept pending p t q k e live z = rw (canceled_once p t q e live) (record {
  live =
      AllLinked-put p none q.heap (erase_timer p q.timers)
        (times-erased p q.timers (omega (arith, k.single p)))
        (AllLinked-erase_timer p q.heap q.timers k.live);
  waiting = AllLinked-put p none q.heap pending z k.waiting;
  single = λ r. omega (arith, k.single r, times-erase_timer p r q.timers);
  sorted = erase_timer-IsSorted p q.timers k.sorted;
})
