-- ===== src/EventLoop/Quit.antt =====
-- EventLoop: a loop that another thread ends before it begins.
use knet_lib.Common.{
  ◌∙◌, ◌≡◌, refl, Bool, true, false, List, [], ltb, Bool-cases, inl, inr, ◌>>=◌, Returns,
}
use knet_lib.EventLoop.{
  eventfd_max, EventLoop, wakeup, quit, handle_wakeup, enter_loop, queue_all, run_all,
  do_pending_tasks, iterate,
}

module _ (T : Type 0) (spawns : T → List T) (quits : T → Bool) where
  wakeup-pending : (l : EventLoop T) → (wakeup T l).pending_tasks ≡ l.pending_tasks
  unfolding wakeup
  wakeup-pending l = elim (Bool-cases (ltb l.wakeups eventfd_max)) [
    | inl t ↦ rw t refl
    | inr f ↦ rw f refl
  ]

  -- A loop with no task waiting runs a round that the eventfd alone began.
  empty_round :
      (l : EventLoop T)
      → l.pending_tasks ≡ []
      → Returns
          (λ m. (m.quit_flag ≡ l.quit_flag) × (m.wakeups ≡ 0) × (m.pending_tasks ≡ []))
          (iterate T spawns quits true [] l)
  unfolding iterate do_pending_tasks queue_all handle_wakeup run_all
  empty_round l e = rw (e, run_all) (refl, refl, refl)

  -- If another thread quits a loop that has no task waiting and has not begun to run, `loop`
  -- clears the flag: after the round that the wake-up began the loop waits again, with the flag
  -- false, the eventfd not readable and no task queued.
  pub quit_before_loop_lost :
      (l : EventLoop T)
      → l.pending_tasks ≡ []
      → Returns
          (λ m. (m.quit_flag ≡ false) × (m.wakeups ≡ 0) × (m.pending_tasks ≡ []))
          (enter_loop T true (quit T false l) >>= iterate T spawns quits true [])
  unfolding enter_loop quit
  quit_before_loop_lost l e =
      empty_round (record (wakeup T (record l { quit_flag = true })) { quit_flag = false })
        (wakeup-pending (record l { quit_flag = true }) ∙ e)
