-- ===== src/EventLoop.antt =====
-- include/knetlib/EventLoop.h and src/EventLoop.cpp: the tasks that threads hand to a loop, and the
-- eventfd that wakes it. `here` says whether the calling thread is the loop's. What a task does to
-- the loop is what it queues and whether it quits: `spawns` and `quits`.
pub mod Tasks
pub mod Wakeup
pub mod Quit
pub mod Lifetime
pub mod Timers
mod Tests
use knet_lib.Common.{
  ℕ, ◌+◌, ◌-◌, ◌^◌, Bool, true, false, not, ◌||◌, List, [], ◌∷◌, ◌++◌, ltb, if◌then◌else◌, Outcome,
  ok, check, ◌>>=◌, ◌>>◌,
}

-- The largest value of an eventfd.
abbrev pub eventfd_max : ℕ
eventfd_max = 2 ^ 64 - 2

module _ (T : Type 0) where
  -- `wakeups` is the value of `wakeupfd_`; `ran` are the tasks that were run so far.
  pub record EventLoop : Type 0 where
    pub quit_flag : Bool
    pub doing_pending_tasks : Bool
    pub wakeups : ℕ
    pub pending_tasks : List T
    pub ran : List T

  -- The constructor.
  abbrev pub new_loop : EventLoop
  new_loop = record {
    quit_flag = false;
    doing_pending_tasks = false;
    wakeups = 0;
    pending_tasks = [];
    ran = [];
  }

  -- A write that does not fit is refused, and logged.
  unfoldable pub wakeup : EventLoop → EventLoop
  wakeup l = if ltb l.wakeups eventfd_max then record l { wakeups = l.wakeups + 1 } else l

  -- The part of `queueInLoop` under the mutex.
  abbrev pub push_task : T → EventLoop → EventLoop
  push_task t l = record l { pending_tasks = l.pending_tasks ++ t ∷ [] }

  unfoldable pub queue_in_loop : Bool → T → EventLoop → EventLoop
  queue_in_loop here t l =
      let l' = push_task t l in if not here || l'.doing_pending_tasks then wakeup l' else l'

  -- The wake-up channel's read callback: a read takes the whole value of an eventfd.
  unfoldable pub handle_wakeup : EventLoop → EventLoop
  handle_wakeup l = record l { wakeups = 0 }

  unfoldable pub quit : Bool → EventLoop → EventLoop
  quit here l = let l' = record l { quit_flag = true } in if not here then wakeup l' else l'

  -- What `loop` does before its first round.
  unfoldable pub enter_loop : Bool → EventLoop → Outcome EventLoop
  enter_loop here l = do check here; ok (record l { quit_flag = false })

  module _ (spawns : T → List T) (quits : T → Bool) where
    unfoldable pub queue_all : List T → EventLoop → EventLoop
    unfolding queue_in_loop
    queue_all [] l = l
    queue_all (t ∷ ts) l = queue_all ts (queue_in_loop true t l)

    -- A task, run in the loop's thread.
    unfoldable pub run : T → EventLoop → EventLoop
    unfolding queue_all quit
    run t l =
        let l' = queue_all (spawns t) (record l { ran = l.ran ++ t ∷ [] }) in
        if quits t then quit true l' else l'

    unfoldable pub run_all : List T → EventLoop → EventLoop
    unfolding run
    run_all [] l = l
    run_all (t ∷ ts) l = run_all ts (run t l)

    unfoldable pub run_in_loop : Bool → T → EventLoop → EventLoop
    unfolding run queue_in_loop
    run_in_loop here t l = if here then run t l else queue_in_loop here t l

    unfoldable pub do_pending_tasks : Bool → EventLoop → Outcome EventLoop
    unfolding run_all
    do_pending_tasks here l = do
      check here
      let l1 = run_all l.pending_tasks (record l { pending_tasks = []; doing_pending_tasks = true })
      ok (record l1 { doing_pending_tasks = false })

    -- The body of the loop after poll: the channels that poll reported handle their events, the
    -- wake-up channel among them if `woken`, and `handled` are the tasks that the handlers queue.
    unfoldable pub iterate : Bool → List T → EventLoop → Outcome EventLoop
    unfolding handle_wakeup queue_all do_pending_tasks
    iterate woken handled l =
        let l1 = if woken then handle_wakeup l else l in
        do_pending_tasks true (queue_all handled l1)
