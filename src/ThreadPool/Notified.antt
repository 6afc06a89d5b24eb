-- ===== src/ThreadPool/Notified.antt =====
-- ThreadPool: a task in the queue does not wait for threads that all sleep.
use knet_lib.Common.{
  ℕ, suc, ◌+◌, ◌≤◌, ◌<◌, ◌≡◌, refl, ap, subst, ◌⊎◌, inl, inr, Bool, List, [], ◌∷◌, ◌++◌, length, ok,
  arith,
}
use knet_lib.ThreadPool.{
  ThreadPool, add, stop_pool, Worker, waiting, sleeping, returned, working, look, World, looks,
  finish, Step, worker, enqueue, notifies_one, notifies_none, wakes, destruct, notifies_all,
  notify_all, asleep, one_if_asleep, Reach, here, next, start,
}
use knet_lib.ThreadPool.Tasks.{add-ok, Reach-IsKept, Reach-length}
use knet_lib.ThreadPool.Counts.{ended}

module _ (T : Type 0) where
  abbrev one_if_awake : Worker T → ℕ
  one_if_awake waiting = 1
  one_if_awake sleeping = 0
  one_if_awake returned = 0
  one_if_awake (working t) = 1

  -- How many threads look at the queue or run a task.
  abbrev pub awake : List (Worker T) → ℕ
  awake [] = 0
  awake (w ∷ ws) = one_if_awake w + awake ws

  awake-split :
      (us vs : List (Worker T)) (w : Worker T)
      → awake (us ++ w ∷ vs) ≡ one_if_awake w + awake (us ++ vs)
  awake-split [] vs w = refl
  awake-split (u ∷ us) vs w = omega (arith, awake-split us vs w)

  pub asleep-split :
      (us vs : List (Worker T)) (w : Worker T)
      → asleep T (us ++ w ∷ vs) ≡ one_if_asleep T w + asleep T (us ++ vs)
  asleep-split [] vs w = refl
  asleep-split (u ∷ us) vs w = omega (arith, asleep-split us vs w)

  pub asleep-notify_all : (ws : List (Worker T)) → asleep T (notify_all T ws) ≡ 0
  unfolding notify_all
  asleep-notify_all [] = refl
  asleep-notify_all (waiting ∷ ws) = omega (arith, asleep-notify_all ws)
  asleep-notify_all (sleeping ∷ ws) = omega (arith, asleep-notify_all ws)
  asleep-notify_all (returned ∷ ws) = omega (arith, asleep-notify_all ws)
  asleep-notify_all (working t ∷ ws) = omega (arith, asleep-notify_all ws)

  -- While a thread sleeps, there is for each queued task a thread that is awake or a notification
  -- to come.
  abbrev IsNoticed : ℕ → ℕ → List (Worker T) → Type 0
  IsNoticed tasks unnotified ws = (asleep T ws ≡ 0) ⊎ (tasks ≤ unnotified + awake ws)

  looked :
      (ts : List T) (stop : Bool) (unnotified : ℕ) (us vs : List (Worker T))
      → IsNoticed (length ts) unnotified (us ++ waiting ∷ vs)
      → IsNoticed (length (look T ts stop).1) unnotified (us ++ (look T ts stop).0 ∷ vs)
  unfolding look
  looked [] stop u us vs h = inr (omega arith)
  looked (t ∷ ts) stop u us vs (inl h) =
      inl (omega (arith, h, asleep-split us vs waiting, asleep-split us vs (working t)))
  looked (t ∷ ts) stop u us vs (inr h) =
      inr (omega (arith, h, awake-split us vs waiting, awake-split us vs (working t)))

  finished_one :
      (tasks unnotified : ℕ) (us vs : List (Worker T)) (t : T)
      → IsNoticed tasks unnotified (us ++ working t ∷ vs)
      → IsNoticed tasks unnotified (us ++ waiting ∷ vs)
  finished_one tasks u us vs t (inl h) =
      inl (omega (arith, h, asleep-split us vs waiting, asleep-split us vs (working t)))
  finished_one tasks u us vs t (inr h) =
      inr (omega (arith, h, awake-split us vs waiting, awake-split us vs (working t)))

  woken_one :
      (tasks unnotified : ℕ) (us vs : List (Worker T))
      → IsNoticed tasks (suc unnotified) (us ++ sleeping ∷ vs)
      → IsNoticed tasks unnotified (us ++ waiting ∷ vs)
  woken_one tasks u us vs (inl h) = absurd (omega (arith, h, asleep-split us vs sleeping))
  woken_one tasks u us vs (inr h) =
      inr (omega (arith, h, awake-split us vs waiting, awake-split us vs sleeping))

  -- A notification to come is more than is needed.
  noticed_more :
      (tasks unnotified : ℕ) (ws : List (Worker T))
      → IsNoticed tasks unnotified ws
      → IsNoticed tasks (suc unnotified) ws
  noticed_more tasks u ws (inl h) = inl h
  noticed_more tasks u ws (inr h) = inr (omega (arith, h))

  length-snoc : (ts : List T) (x : T) → length (ts ++ x ∷ []) ≡ suc (length ts)
  length-snoc [] x = refl
  length-snoc (y ∷ ts) x = ap suc (length-snoc ts x)

  added :
      (t : T) (p p' : ThreadPool T) (unnotified : ℕ) (ws : List (Worker T))
      → add T t p ≡ ok p'
      → IsNoticed (length p.tasks) unnotified ws
      → IsNoticed (length p'.tasks) (suc unnotified) ws
  added t p p' u ws e (inl h) = inl h
  added t p p' u ws e (inr h) = inr (
      omega (
        arith,
        h,
        ap (λ (q : ThreadPool T). length q.tasks) (add-ok T t p.tasks p.stop p' e).1,
        length-snoc p.tasks t,
      ))

  Step-IsNoticed :
      {v w : World T}
      → Step T v w
      → IsNoticed (length v.pool.tasks) v.unnotified v.workers
      → IsNoticed (length w.pool.tasks) w.unnotified w.workers
  unfolding stop_pool
  Step-IsNoticed {v} (worker (looks us vs e)) h =
      looked v.pool.tasks v.pool.stop v.unnotified us vs
        (subst (IsNoticed (length v.pool.tasks) v.unnotified) e h)
  Step-IsNoticed {v} (worker (finish us vs t e)) h =
      finished_one (length v.pool.tasks) v.unnotified us vs t
        (subst (IsNoticed (length v.pool.tasks) v.unnotified) e h)
  Step-IsNoticed {v} (enqueue t p e) h = added t v.pool p v.unnotified v.workers e h
  Step-IsNoticed {v} (notifies_one n us vs u e) h = woken_one (length v.pool.tasks) n us vs (
      subst (λ m. IsNoticed (length v.pool.tasks) m (us ++ sleeping ∷ vs)) u
        (subst (IsNoticed (length v.pool.tasks) v.unnotified) e h))
  Step-IsNoticed (notifies_none n u e) h = inl e
  Step-IsNoticed {v} (wakes us vs e) h = woken_one (length v.pool.tasks) v.unnotified us vs (
      noticed_more (length v.pool.tasks) v.unnotified (us ++ sleeping ∷ vs)
        (subst (IsNoticed (length v.pool.tasks) v.unnotified) e h))
  Step-IsNoticed destruct h = h
  Step-IsNoticed {v} (notifies_all on) h = inl (asleep-notify_all v.workers)

  Reach-IsNoticed :
      (size : ℕ) {w : World T}
      → Reach T (start T size) w
      → IsNoticed (length w.pool.tasks) w.unnotified w.workers
  Reach-IsNoticed size here = inr (omega arith)
  Reach-IsNoticed size (next r s) = Step-IsNoticed s (Reach-IsNoticed size r)

  all_counted : (ws : List (Worker T)) → asleep T ws + awake ws + ended T ws ≡ length ws
  all_counted [] = refl
  all_counted (waiting ∷ ws) = omega (arith, all_counted ws)
  all_counted (sleeping ∷ ws) = omega (arith, all_counted ws)
  all_counted (returned ∷ ws) = omega (arith, all_counted ws)
  all_counted (working t ∷ ws) = omega (arith, all_counted ws)

  -- In a pool of at least one thread, while a task is in the queue, some thread looks at the queue
  -- or runs a task, or a call of `add` has its `notify_one` still to make: no task waits for
  -- threads that all sleep.
  pub queued_task_noticed :
      (size : ℕ) {w : World T}
      → Reach T (start T size) w
      → 0 < size
      → 0 < length w.pool.tasks
      → 0 < w.unnotified + awake w.workers
  queued_task_noticed size {w} r p q = elim (Reach-IsNoticed size r) [
    | inr h ↦ omega (arith, h)
    | inl h ↦ omega (arith, h, all_counted w.workers, none_ended, Reach-length T size r)
  ]
    where
      none_ended : ended T w.workers ≡ 0
      none_ended = omega (
        arith,
        λ (e : 0 < ended T w.workers).
            let some_left : length w.pool.tasks ≡ 0 =
              ap (λ (ts : List T). length ts) ((Reach-IsKept T size r).closed e).1 in
            absurd {A = ⊥} (omega (arith, some_left, q)),
      )
