-- ===== src/TimerQueue/Tests.antt =====
-- The theorems of TimerQueue at a concrete queue.
use knet_lib.Common.{
  ℕ, ◌≡◌, refl, List, [], ◌∷◌, true, false, ◌==◌, if◌then◌else◌, Option, none, some, Outcome, ok,
  crash, dangling, arith, Returns,
}
use knet_lib.TimerQueue.{
  Timer, Entry, destroy_queue, TimerQueue, cancel_timer, handle_timers, new_timer, put, add_timer,
  add_in_loop, duration_from_now, insert,
}
use knet_lib.TimerQueue.Owned.{Tidy, IsTidy}
use knet_lib.TimerQueue.Sequence.{Call, adds, make, Reach, created, called, calls_return}
use knet_lib.TimerQueue.Kept.{IsKept}
use knet_lib.TimerQueue.Armed.{IsPunctual, handle_timers-IsPunctual}
use knet_lib.TimerQueue.Settled.{IsCareful}
use knet_lib.TimerQueue.Dangling.{self_cancel_dangling}

abbrev every_ten : Timer
every_ten = record { when = 100; interval = 10; repeat = true; canceled = false }

abbrev one_timer : ℕ → Option Timer
one_timer p = if p == 7 then some every_ten else none

abbrev two_entries : List Entry
two_entries = (100, 7) ∷ (200, 8) ∷ []

abbrev queue : TimerQueue
queue = record { timers = two_entries; heap = one_timer; armed = none }

abbrev do_nothing : ℕ → TimerQueue → Outcome TimerQueue
do_nothing p q = ok q

self_cancel_dangling_example : handle_timers cancel_timer true 150 151 queue ≡ crash dangling
self_cancel_dangling_example =
    self_cancel_dangling cancel_timer 150 151 100 7 every_ten ((200, 8) ∷ []) one_timer none refl
      (omega arith) refl (omega arith) (λ q. refl)

-- Two timers with their entries.
abbrev two_timers : ℕ → Option Timer
two_timers p =
    if p == 7
    then some every_ten
    else if p == 8
    then some (record { when = 200; interval = 0; repeat = false; canceled = false })
    else none

abbrev paired : TimerQueue
paired = record { timers = two_entries; heap = two_timers; armed = none }

paired-IsKept : IsKept [] paired
paired-IsKept = record {
  live = ((refl, refl), ((refl, refl), tt));
  waiting = tt;
  single = λ p. ground arith;
  sorted = (refl, tt);
}

-- A callback that adds nothing and cancels nothing.
do_nothing-IsCareful : IsCareful do_nothing
do_nothing-IsCareful p pending q k = k

handle_timers-IsPunctual_example :
    Returns (λ r. IsPunctual 151 r.timers r.armed) (handle_timers do_nothing true 150 151 paired)
handle_timers-IsPunctual_example =
    handle_timers-IsPunctual do_nothing do_nothing-IsCareful 150 151 paired paired-IsKept

-- A timer was added.
abbrev added : TimerQueue
added = record {
  timers = (150, 9) ∷ [];
  heap = put 9 (some (new_timer 150 0)) (λ p. none);
  armed = some (0, 1000000);
}

added-Reach : Reach do_nothing added
unfolding make add_timer add_in_loop duration_from_now insert
added-Reach = called added created (adds 100 9 150 0 refl) refl

do_nothing-IsTidy : IsTidy do_nothing
do_nothing-IsTidy p pending q k = k

calls_return_example :
    Tidy [] added
    × ((call : Call do_nothing added) → Returns (Tidy []) (make do_nothing added call))
    × Returns (λ h. (p : ℕ) → h p ≡ none) (destroy_queue added)
calls_return_example = calls_return do_nothing do_nothing-IsCareful do_nothing-IsTidy added-Reach
