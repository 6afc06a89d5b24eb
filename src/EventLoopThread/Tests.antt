-- ===== src/EventLoopThread/Tests.antt =====
-- EventLoopThread: a thread in its loop is stopped, and one that has not begun it.
use knet_lib.Common.{ℕ, ◌≤◌, ◌≡◌, refl, ◌⊎◌, Bool, true, false, List, [], arith}
use knet_lib.EventLoop.{
  new_loop, quit, wakeup, iterate, do_pending_tasks, handle_wakeup, queue_all, run_all,
}
use knet_lib.EventLoopThread.{
  EventLoopThread, new_thread, looping, ended, outside, begin_stop, ThreadStep, round, Step, Reach,
  Run, halt, then_step,
}
use knet_lib.EventLoopThread.Stop.{hanging, stop_ends, stop_before_loop_hangs}

abbrev spawns_none : ℕ → List ℕ
spawns_none t = []

abbrev never_quits : ℕ → Bool
never_quits t = false

abbrev in_loop : EventLoopThread ℕ spawns_none never_quits
in_loop = record {
  loop_set = true;
  exiting = false;
  loop = new_loop ℕ;
  phase = looping;
  owner = outside;
}

one_round :
    (w : EventLoopThread ℕ spawns_none never_quits) × Run ℕ spawns_none never_quits
      (begin_stop ℕ spawns_none never_quits in_loop)
      1
      w
unfolding begin_stop quit wakeup iterate do_pending_tasks handle_wakeup queue_all run_all
one_round = (_, then_step halt (round _ refl (omega arith) refl))

stop_ends_example :
    (1 ≤ 2)
    × ((one_round.0.phase ≡ ended)
        ⊎ ((y : EventLoopThread ℕ spawns_none never_quits) × ThreadStep ℕ spawns_none never_quits
              one_round.0 y))
stop_ends_example = stop_ends ℕ spawns_none never_quits in_loop 1 refl refl refl one_round.1

stop_before_loop_hangs_example :
    Reach ℕ spawns_none never_quits
      (new_thread ℕ spawns_none never_quits)
      (hanging ℕ spawns_none never_quits)
    × ((w : EventLoopThread ℕ spawns_none never_quits)
        → ¬ Step ℕ spawns_none never_quits (hanging ℕ spawns_none never_quits) w)
stop_before_loop_hangs_example = stop_before_loop_hangs ℕ spawns_none never_quits
