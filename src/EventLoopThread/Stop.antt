-- ===== src/EventLoopThread/Stop.antt =====
-- EventLoopThread: a thread that is stopped ends, if it was in its loop, and may not end, if it was
-- just about to enter it.
use knet_lib.Common.{
  ℕ, ◌+◌, ◌≤◌, ◌<◌, ◌≡◌, refl, sym, ap, subst, ◌∙◌, ◌⊎◌, inl, inr, Bool, true, false, List, [], ◌∷◌,
  ◌++◌, if◌then◌else◌, Returns, Returns-ok, Bool-cases, arith, ltb,
}
use knet_lib.EventLoop.{
  eventfd_max, EventLoop, new_loop, wakeup, push_task, queue_in_loop, quit, run, run_all, queue_all,
  handle_wakeup, do_pending_tasks, iterate, enter_loop,
}
use knet_lib.EventLoopThread.{
  Phase, not_started, creating, published, looping, left, ended, joining, EventLoopThread,
  new_thread, start_thread, begin_stop, ThreadStep, publish, enter, round, leave, Step, thread,
  start, started, stop, join, join_none, Reach, here, next, Run, halt, then_step,
}

module _ (T : Type 0) (spawns : T → List T) (quits : T → Bool) where
  wakeup-flag : (l : EventLoop T) → (wakeup T l).quit_flag ≡ l.quit_flag
  unfolding wakeup
  wakeup-flag l = elim (Bool-cases (ltb l.wakeups eventfd_max)) [
    | inl t ↦ rw t refl
    | inr t ↦ rw t refl
  ]

  maybe_woken : (b : Bool) (l : EventLoop T) → (if b then wakeup T l else l).quit_flag ≡ l.quit_flag
  maybe_woken true l = wakeup-flag l
  maybe_woken false l = refl

  queue_in_loop-flag :
      (t : T) (l : EventLoop T) → (queue_in_loop T true t l).quit_flag ≡ l.quit_flag
  unfolding queue_in_loop
  queue_in_loop-flag t l = maybe_woken l.doing_pending_tasks (push_task T t l)

  queue_all-flag :
      (ts : List T) (l : EventLoop T) → (queue_all T spawns quits ts l).quit_flag ≡ l.quit_flag
  unfolding queue_all
  queue_all-flag [] l = refl
  queue_all-flag (t ∷ ts) l = queue_all-flag ts (queue_in_loop T true t l) ∙ queue_in_loop-flag t l

  -- A task does not take back that the loop was told to end.
  run-flag :
      (t : T) (l : EventLoop T) → l.quit_flag ≡ true → (run T spawns quits t l).quit_flag ≡ true
  unfolding run quit
  run-flag t l e =
      let queued = queue_all-flag (spawns t) (record l { ran = l.ran ++ t ∷ [] }) ∙ e in
      elim (Bool-cases (quits t)) [ inl q ↦ rw q refl | inr q ↦ rw q queued ]

  run_all-flag :
      (ts : List T) (l : EventLoop T)
      → l.quit_flag ≡ true
      → (run_all T spawns quits ts l).quit_flag ≡ true
  unfolding run_all
  run_all-flag [] l e = e
  run_all-flag (t ∷ ts) l e = run_all-flag ts (run T spawns quits t l) (run-flag t l e)

  iterate-flag :
      (l : EventLoop T)
      → l.quit_flag ≡ true
      → Returns (λ m. m.quit_flag ≡ true) (iterate T spawns quits true [] l)
  unfolding iterate do_pending_tasks queue_all handle_wakeup
  iterate-flag l e =
      run_all-flag l.pending_tasks
        (record l { wakeups = 0; pending_tasks = []; doing_pending_tasks = true }) e

  wakeup-pos : (l : EventLoop T) → 0 < (wakeup T l).wakeups
  unfolding wakeup
  wakeup-pos l = elim (Bool-cases (ltb l.wakeups eventfd_max)) [
    | inl t ↦ rw t (omega arith)
    | inr t ↦ rw t (ground (arith, t))
  ]

  abbrev Thread : Type 0
  Thread = EventLoopThread T spawns quits

  -- How many steps are left at most.
  abbrev rest : Phase T spawns quits → ℕ
  rest not_started = 0
  rest creating = 4
  rest published = 3
  rest looping = 2
  rest left = 1
  rest ended = 0

  -- A loop that was told to end while it ran.
  abbrev IsEnding : Phase T spawns quits → EventLoop T → Type 0
  IsEnding not_started l = ⊥
  IsEnding creating l = ⊥
  IsEnding published l = ⊥
  IsEnding looping l = (l.quit_flag ≡ true) × (0 < l.wakeups)
  IsEnding left l = Unit
  IsEnding ended l = Unit

  at_phase : (p q : Phase T spawns quits) (l : EventLoop T) → p ≡ q → IsEnding p l → IsEnding q l
  at_phase p q l e h = subst (λ r. IsEnding r l) e h

  ThreadStep-IsEnding :
      {v w : Thread}
      → ThreadStep T spawns quits v w
      → IsEnding v.phase v.loop
      → IsEnding w.phase w.loop × (rest w.phase < rest v.phase)
  ThreadStep-IsEnding {v} (publish e) h = absurd (at_phase v.phase creating v.loop e h)
  ThreadStep-IsEnding {v} (enter l e f) h = absurd (at_phase v.phase published v.loop e h)
  ThreadStep-IsEnding {v} (round l e p f) h =
      let flag = (at_phase v.phase looping v.loop e h).0 in
      let (m, g, told) =
        Returns-ok (λ (m : EventLoop T). m.quit_flag ≡ true) (iterate T spawns quits true [] v.loop)
          (iterate-flag v.loop flag) in
      let same : m ≡ l = cc (g, f) in
      rw (sym (ap (λ (x : EventLoop T). x.quit_flag) same) ∙ told, e) (tt, omega arith)
  ThreadStep-IsEnding {v} (leave e) h = (tt, rw e (omega arith))

  Run-IsEnding :
      {v w : Thread} {n : ℕ}
      → Run T spawns quits v n w
      → IsEnding v.phase v.loop
      → IsEnding w.phase w.loop × (n + rest w.phase ≤ rest v.phase)
  Run-IsEnding halt h = (h, omega arith)
  Run-IsEnding (then_step r s) h =
      let k = Run-IsEnding r h in
      let m = ThreadStep-IsEnding s k.0 in (m.0, omega (arith, k.1, m.1))

  -- A loop that ends can step until its thread is at its end.
  proceeds :
      (p : Phase T spawns quits) (w : Thread)
      → w.phase ≡ p
      → IsEnding p w.loop
      → (w.phase ≡ ended) ⊎ ((x : Thread) × ThreadStep T spawns quits w x)
  proceeds not_started w e h = absurd h
  proceeds creating w e h = absurd h
  proceeds published w e h = absurd h
  proceeds looping w e h =
      let (m, g, told) =
        Returns-ok (λ (m : EventLoop T). m.quit_flag ≡ true) (iterate T spawns quits true [] w.loop)
          (iterate-flag w.loop h.0) in
      inr (_, round m e h.1 g)
  proceeds left w e h = inr (_, leave e)
  proceeds ended w e h = inl e

  -- `stop`, by the fields that it reads.
  begun :
      (set exit : Bool) (p : Phase T spawns quits) (w : Thread)
      → exit ≡ false
      → p ≡ looping
      → set ≡ true
      → (let v =
            begin_stop T spawns quits (record w { loop_set = set; exiting = exit; phase = p }) in
          IsEnding v.phase v.loop × (rest v.phase ≡ 2))
  unfolding begin_stop quit
  begun set true p w x e s = absurd (cc)
  begun false false p w x e s = absurd (cc)
  begun true false p w x e s = rw e (
    (
      wakeup-flag (record w.loop { quit_flag = true }),
      wakeup-pos (record w.loop { quit_flag = true }),
    ),
    refl,
  )

  -- After `stop` of a thread that runs its loop, published and not stopped before, the thread
  -- takes at most two more steps, and as long as it is not at its end it can step: the join
  -- returns.
  pub stop_ends :
      (w : Thread) (n : ℕ) {x : Thread}
      → w.exiting ≡ false
      → w.phase ≡ looping
      → w.loop_set ≡ true
      → Run T spawns quits (begin_stop T spawns quits w) n x
      → (n ≤ 2) × ((x.phase ≡ ended) ⊎ ((y : Thread) × ThreadStep T spawns quits x y))
  stop_ends w n {x} d e s r =
      let (h, two) = begun w.loop_set w.exiting w.phase w d e s in
      let (k, few) = Run-IsEnding r h in (omega (arith, two, few), proceeds x.phase x refl k)

  -- The owner waits in the join, and the loop in poll, with the flag cleared and nothing to wake it.
  abbrev pub hanging : Thread
  hanging = record {
    loop_set = true;
    exiting = true;
    loop = new_loop T;
    phase = looping;
    owner = joining;
  }

  hanging-Reach : Reach T spawns quits (new_thread T spawns quits) hanging
  unfolding start_thread begin_stop quit wakeup enter_loop iterate do_pending_tasks handle_wakeup
      queue_all run_all
  hanging-Reach =
      next
        (next
          (next
            (next (next (next here (start _ refl refl refl)) (thread (publish refl)))
              (started refl refl))
            (stop refl refl))
          (thread (enter _ refl refl)))
        (thread (round _ refl (omega arith) refl))

  hanging-stuck : (w : Thread) → ¬ Step T spawns quits hanging w
  hanging-stuck w (thread (publish e)) = cc
  hanging-stuck w (thread (enter l e f)) = cc
  hanging-stuck w (thread (round l e p f)) = omega arith
  hanging-stuck w (thread (leave e)) = cc
  hanging-stuck w (start v e f g) = cc
  hanging-stuck w (started e f) = cc
  hanging-stuck w (stop e f) = cc
  hanging-stuck w (join e f) = cc
  hanging-stuck w (join_none e f) = cc

  -- A thread whose loop was published and that is stopped before it enters `loop` can come to a
  -- state in which the owner waits in the join and neither it nor the thread has a step left:
  -- `loop` has cleared the flag and the eventfd was read.
  pub stop_before_loop_hangs :
      Reach T spawns quits (new_thread T spawns quits) hanging
      × ((w : Thread) → ¬ Step T spawns quits hanging w)
  stop_before_loop_hangs = (hanging-Reach, hanging-stuck)
