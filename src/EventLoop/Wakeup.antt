-- ===== src/EventLoop/Wakeup.antt =====
-- EventLoop with other threads: `queueInLoop` of another thread is two steps, the push under the
-- mutex and the write to the eventfd, and any step of the loop may come between them.
use knet_lib.Common.{
  ℕ, suc, ◌+◌, ◌<◌, ◌≡◌, refl, ap, ◌∙◌, Bool, true, false, List, [], ◌∷◌, length, length-append,
  inl, inr, arith, Bool-cases, ltb,
}
use knet_lib.EventLoop.{
  eventfd_max, EventLoop, wakeup, push_task, queue_in_loop, handle_wakeup, new_loop, run,
}
use knet_lib.EventLoop.Tasks.{run-Ran, wakeup-pos}

module _ (T : Type 0) (spawns : T → List T) (quits : T → Bool) where
  -- Where the loop's thread is: in epoll_wait, in the handlers of events, or in doPendingTasks with
  -- these tasks left.
  pub data Phase : Type 0 where
    polling handling : Phase
    working : List T → Phase

  -- `between` counts the threads that have pushed a task and not yet written to the eventfd.
  pub record World : Type 0 where
    pub loop : EventLoop T
    pub phase : Phase
    pub between : ℕ

  pub data Step : World → World → Type 0 where
    -- Another thread.
    push :
        (l : EventLoop T) (p : Phase) (n : ℕ) (t : T)
        → Step
            (record { loop = l; phase = p; between = n })
            (record { loop = push_task T t l; phase = p; between = suc n })
    write :
        (l : EventLoop T) (p : Phase) (n : ℕ)
        → Step
            (record { loop = l; phase = p; between = suc n })
            (record { loop = wakeup T l; phase = p; between = n })
    -- The loop's thread.
    wake :
        (l : EventLoop T) (n : ℕ)
        → Step
            (record { loop = l; phase = polling; between = n })
            (record { loop = l; phase = handling; between = n })
    drain :
        (l : EventLoop T) (n : ℕ)
        → Step
            (record { loop = l; phase = handling; between = n })
            (record { loop = handle_wakeup T l; phase = handling; between = n })
    handler_queues :
        (l : EventLoop T) (n : ℕ) (t : T)
        → Step
            (record { loop = l; phase = handling; between = n })
            (record { loop = queue_in_loop T true t l; phase = handling; between = n })
    swap_tasks :
        (l : EventLoop T) (n : ℕ)
        → Step
            (record { loop = l; phase = handling; between = n })
            (record {
              loop = record l { pending_tasks = []; doing_pending_tasks = true };
              phase = working l.pending_tasks;
              between = n;
            })
    work :
        (l : EventLoop T) (n : ℕ) (t : T) (ts : List T)
        → Step
            (record { loop = l; phase = working (t ∷ ts); between = n })
            (record { loop = run T spawns quits t l; phase = working ts; between = n })
    finish :
        (l : EventLoop T) (n : ℕ)
        → Step
            (record { loop = l; phase = working []; between = n })
            (record {
              loop = record l { doing_pending_tasks = false };
              phase = polling;
              between = n;
            })

  pub data Reach (v : World) : World → Type 0 where
    here : Reach v v
    next : {w x : World} → Reach v w → Step w x → Reach v x

  -- A thread that enters its loop with no task queued.
  abbrev pub start : World
  start = record { loop = new_loop T; phase = polling; between = 0 }

  -- A queued task has a wake-up that is written or about to be.
  abbrev Awake : EventLoop T → ℕ → Type 0
  Awake l n = 0 < length l.pending_tasks → 0 < l.wakeups + n

  abbrev IsAwake : Phase → EventLoop T → ℕ → Type 0
  IsAwake polling l n = Awake l n
  IsAwake handling l n = Unit
  IsAwake (working ts) l n = (l.doing_pending_tasks ≡ true) × Awake l n

  push-IsAwake :
      (p : Phase) (l : EventLoop T) (n : ℕ) (t : T)
      → IsAwake p l n
      → IsAwake p (push_task T t l) (suc n)
  push-IsAwake polling l n t h = λ q. omega arith
  push-IsAwake handling l n t h = tt
  push-IsAwake (working ts) l n t h = (h.0, λ q. omega arith)

  wakeup-doing : (l : EventLoop T) → (wakeup T l).doing_pending_tasks ≡ l.doing_pending_tasks
  unfolding wakeup
  wakeup-doing l = elim (Bool-cases (ltb l.wakeups eventfd_max)) [
    | inl t ↦ rw t refl
    | inr f ↦ rw f refl
  ]

  write-IsAwake :
      (p : Phase) (l : EventLoop T) (n : ℕ) → IsAwake p l (suc n) → IsAwake p (wakeup T l) n
  write-IsAwake polling l n h = λ q. omega (arith, wakeup-pos T l)
  write-IsAwake handling l n h = tt
  write-IsAwake (working ts) l n h = (wakeup-doing l ∙ h.0, λ q. omega (arith, wakeup-pos T l))

  run-IsAwake :
      (l : EventLoop T) (n : ℕ) (t : T) (ts : List T)
      → IsAwake (working (t ∷ ts)) l n
      → IsAwake (working ts) (run T spawns quits t l) n
  run-IsAwake l n t ts h =
      let r = run-Ran T spawns quits t l h.0 in
      let old : 0 < l.wakeups → 0 < (run T spawns quits t l).wakeups = λ p. r.woken (inl p) in
      let new : 0 < length (spawns t) → 0 < (run T spawns quits t l).wakeups =
        λ p. r.woken (inr p) in
      (
        r.doing,
        λ q.
            ground
              (arith, old, new, h.1, ap length r.pending, length-append l.pending_tasks (spawns t)),
      )

  Step-IsAwake :
      {v w : World} → Step v w → IsAwake v.phase v.loop v.between → IsAwake w.phase w.loop w.between
  Step-IsAwake (push l p n t) h = push-IsAwake p l n t h
  Step-IsAwake (write l p n) h = write-IsAwake p l n h
  Step-IsAwake (wake l n) h = tt
  Step-IsAwake (drain l n) h = tt
  Step-IsAwake (handler_queues l n t) h = tt
  Step-IsAwake (swap_tasks l n) h = (refl, λ q. absurd (omega arith))
  Step-IsAwake (work l n t ts) h = run-IsAwake l n t ts h
  Step-IsAwake (finish l n) h = h.1

  Reach-IsAwake : {w : World} → Reach start w → IsAwake w.phase w.loop w.between
  Reach-IsAwake here = λ q. absurd (omega arith)
  Reach-IsAwake (next r s) = Step-IsAwake s (Reach-IsAwake r)

  -- In every state that a loop, started with no task queued, and other threads can reach, if the
  -- loop waits in epoll_wait while a task is queued, the eventfd is readable or a thread that has
  -- pushed a task is about to write to it, so that the wait ends.
  pub no_lost_wakeup :
      {w : World}
      → Reach start w
      → w.phase ≡ polling
      → 0 < length w.loop.pending_tasks
      → 0 < w.loop.wakeups + w.between
  no_lost_wakeup {w} r e h = awake w.phase e (Reach-IsAwake r) h
    where
      awake : (p : Phase) → p ≡ polling → IsAwake p w.loop w.between → Awake w.loop w.between
      awake polling e h = h
      awake handling e h = absurd (cc)
      awake (working ts) e h = h.1
