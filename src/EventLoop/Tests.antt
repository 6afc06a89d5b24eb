-- ===== src/EventLoop/Tests.antt =====
-- Runs of EventLoop, and its theorems at a concrete loop.
use knet_lib.Common.{
  ℕ, ◌+◌, ◌<◌, ◌≡◌, refl, Bool, true, ◌==◌, if◌then◌else◌, false, List, [], ◌∷◌, ◌++◌, length, ok,
  Returns, ◌>>=◌, arith, Option, none,
}
use knet_lib.EventLoop.{
  EventLoop, new_loop, queue_in_loop, push_task, wakeup, do_pending_tasks, run, queue_all, run_all,
  quit,
}
use knet_lib.EventLoop.Tasks.{spawned, do_pending_tasks-Returns}
use knet_lib.TimerQueue.{TimerQueue, handle_timers}
use knet_lib.EventLoop.Timers.{run_after, run_every, IsSettled, timers_settle}
use knet_lib.EventLoop.Wakeup.{World, polling, here, next, push, no_lost_wakeup}

-- Task 5 queues the tasks 6 and 7 when it runs.
abbrev five_spawns : ℕ → List ℕ
five_spawns t = if t == 5 then 6 ∷ 7 ∷ [] else []

abbrev never_quits : ℕ → Bool
never_quits t = false

abbrev two_waiting : EventLoop ℕ
two_waiting = record (new_loop ℕ) { pending_tasks = 5 ∷ 8 ∷ [] }

do_pending_tasks-two_waiting :
    do_pending_tasks ℕ five_spawns never_quits true two_waiting
    ≡ ok (record two_waiting { pending_tasks = 6 ∷ 7 ∷ []; ran = 5 ∷ 8 ∷ []; wakeups = 2 })
unfolding do_pending_tasks run_all run queue_all queue_in_loop wakeup quit
do_pending_tasks-two_waiting = refl

do_pending_tasks-Returns_example :
    Returns
      (λ m.
        (m.ran ≡ [] ++ 5 ∷ 8 ∷ [])
        × (m.pending_tasks ≡ spawned five_spawns (5 ∷ 8 ∷ []))
        × (m.doing_pending_tasks ≡ false)
        × (0 < length m.pending_tasks → 0 < m.wakeups))
      (do_pending_tasks ℕ five_spawns never_quits true two_waiting)
do_pending_tasks-Returns_example = do_pending_tasks-Returns ℕ five_spawns never_quits two_waiting

-- Another thread has pushed a task and not yet written to the eventfd.
abbrev pushed : World ℕ five_spawns never_quits
pushed = record { loop = push_task ℕ 5 (new_loop ℕ); phase = polling; between = 1 }

no_lost_wakeup_example : 0 < pushed.loop.wakeups + pushed.between
no_lost_wakeup_example =
    no_lost_wakeup ℕ five_spawns never_quits {w = pushed}
      (next here (push (new_loop ℕ) polling 0 5)) refl (omega arith)

abbrev unused : ℕ → Option ℕ
unused fd = none

abbrev no_timers : TimerQueue
no_timers = record { timers = []; heap = λ p. none; armed = none }

-- The callback does nothing to the timers.
timers_settle_example :
    Returns
      (IsSettled 32 1250 0 1300)
      (run_after 1000 32 250 no_timers >>= handle_timers (λ p q. ok q) true 1260 1300)
    × Returns
        (IsSettled 32 1250 250 1300)
        (run_every 1000 32 250 no_timers >>= handle_timers (λ p q. ok q) true 1260 1300)
timers_settle_example =
    timers_settle (λ p q. ok q) (λ p q. refl) 1000 32 250 1260 1300 no_timers refl (omega arith)
