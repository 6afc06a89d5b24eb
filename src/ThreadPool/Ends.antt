-- ===== src/ThreadPool/Ends.antt =====
-- ThreadPool: the joins of the destructor come to an end, where the tasks do.
use knet_lib.Common.{
  ℕ, suc, ◌+◌, ◌*◌, ◌≤◌, ◌<◌, ◌≡◌, refl, ap, ◌∙◌, ◌⊎◌, Bool, true, false, List, [], ◌∷◌, ◌++◌,
  length, arith, inl, inr,
}
use knet_lib.ThreadPool.{
  Worker, waiting, sleeping, returned, working, look, stop_pool, World, WorkerStep, looks, finish,
  Step, worker, enqueue, notifies_one, notifies_none, wakes, destruct, notifies_all, asleep,
  one_if_asleep, Reach, here, next, start, IsJoined,
}
use knet_lib.ThreadPool.Tasks.{add-ok}
use knet_lib.ThreadPool.Notified.{asleep-split, asleep-notify_all}

module _ (T : Type 0) where
  -- `n` steps of the pool's threads in a row.
  pub data Run (v : World T) : ℕ → World T → Type 0 where
    halt : Run v 0 v
    then_step : {n : ℕ} {w x : World T} → Run v n w → WorkerStep T w x → Run v (suc n) x

  abbrev weight : Worker T → ℕ
  weight returned = 0
  weight sleeping = 0
  weight waiting = 1
  weight (working t) = 2

  abbrev weights : List (Worker T) → ℕ
  weights [] = 0
  weights (w ∷ ws) = weight w + weights ws

  weights-split :
      (us vs : List (Worker T)) (w : Worker T)
      → weights (us ++ w ∷ vs) ≡ weight w + weights (us ++ vs)
  weights-split [] vs w = refl
  weights-split (u ∷ us) vs w = omega (arith, weights-split us vs w)

  -- Twice the queued tasks, one for a thread that waits and two for one that works.
  abbrev pub work_left : World T → ℕ
  work_left w = 2 * length w.pool.tasks + weights w.workers

  look-lt :
      (ts : List T) (stop : Bool)
      → stop ≡ true
      → 2 * length (look T ts stop).1 + weight (look T ts stop).0 < 2 * length ts + 1
  unfolding look
  look-lt [] true e = omega arith
  look-lt [] false e = absurd (cc)
  look-lt (t ∷ ts) stop e = omega arith

  WorkerStep-lt :
      {v w : World T}
      → WorkerStep T v w
      → v.pool.stop ≡ true
      → (w.pool.stop ≡ true) × (work_left w < work_left v)
  WorkerStep-lt {v} (looks us vs e) h =
      let found = look T v.pool.tasks v.pool.stop in
      (
        h,
        omega (
          arith,
          look-lt v.pool.tasks v.pool.stop h,
          ap weights e,
          weights-split us vs waiting,
          weights-split us vs found.0,
        ),
      )
  WorkerStep-lt {v} (finish us vs t e) h =
      (h, omega (arith, ap weights e, weights-split us vs waiting, weights-split us vs (working t)))

  -- Some thread that can go on stands in the list.
  data Open (ws : List (Worker T)) : Type 0 where
    open_waiting : (us vs : List (Worker T)) → ws ≡ us ++ waiting ∷ vs → Open ws
    open_working : (us vs : List (Worker T)) (t : T) → ws ≡ us ++ working t ∷ vs → Open ws

  Open-cons : (w : Worker T) (ws : List (Worker T)) → Open ws → Open (w ∷ ws)
  Open-cons w ws (open_waiting us vs e) = open_waiting (w ∷ us) vs (ap (◌∷◌ w) e)
  Open-cons w ws (open_working us vs t e) = open_working (w ∷ us) vs t (ap (◌∷◌ w) e)

  IsJoined-dec : (ws : List (Worker T)) → asleep T ws ≡ 0 → IsJoined T ws ⊎ Open ws
  IsJoined-dec [] h = inl tt
  IsJoined-dec (waiting ∷ ws) h = inr (open_waiting [] ws refl)
  IsJoined-dec (sleeping ∷ ws) h = absurd (omega (arith, h))
  IsJoined-dec (working t ∷ ws) h = inr (open_working [] ws t refl)
  IsJoined-dec (returned ∷ ws) h = elim (IsJoined-dec ws (omega (arith, h))) [
    | inl j ↦ inl j
    | inr o ↦ inr (Open-cons returned ws o)
  ]

  Open-step : (w : World T) → Open w.workers → (x : World T) × WorkerStep T w x
  Open-step w (open_waiting us vs e) = (_, looks us vs e)
  Open-step w (open_working us vs t e) = (_, finish us vs t e)

  Run-lt :
      {v w : World T} {n : ℕ}
      → Run v n w
      → v.pool.stop ≡ true
      → (w.pool.stop ≡ true) × (n + work_left w ≤ work_left v)
  Run-lt halt h = (h, omega arith)
  Run-lt (then_step r s) h =
      let k = Run-lt r h in let m = WorkerStep-lt s k.0 in (m.0, omega (arith, k.1, m.1))

  -- Once the destructor has come to its joins the pool is stopped and no thread sleeps.
  abbrev IsWoken : World T → Type 0
  IsWoken w = w.joining ≡ true → (w.pool.stop ≡ true) × (asleep T w.workers ≡ 0)

  look-asleep : (ts : List T) (stop : Bool) → stop ≡ true → one_if_asleep T (look T ts stop).0 ≡ 0
  unfolding look
  look-asleep [] true e = refl
  look-asleep [] false e = absurd (cc)
  look-asleep (t ∷ ts) stop e = refl

  WorkerStep-asleep :
      {v w : World T}
      → WorkerStep T v w
      → v.pool.stop ≡ true
      → asleep T v.workers ≡ 0
      → asleep T w.workers ≡ 0
  WorkerStep-asleep {v} (looks us vs e) on h =
      let found = look T v.pool.tasks v.pool.stop in
      omega (
        arith,
        h,
        ap (asleep T) e,
        look-asleep v.pool.tasks v.pool.stop on,
        asleep-split T us vs waiting,
        asleep-split T us vs found.0,
      )
  WorkerStep-asleep {v} (finish us vs t e) on h =
      omega
        (arith, h, ap (asleep T) e, asleep-split T us vs waiting, asleep-split T us vs (working t))

  -- A thread that is woken leaves as many asleep, at most.
  awake-asleep :
      (ws us vs : List (Worker T))
      → ws ≡ us ++ sleeping ∷ vs
      → asleep T ws ≡ 0
      → asleep T (us ++ waiting ∷ vs) ≡ 0
  awake-asleep ws us vs e h =
      absurd (omega (arith, h, ap (asleep T) e, asleep-split T us vs sleeping))

  Step-IsWoken : {v w : World T} → Step T v w → IsWoken v → IsWoken w
  unfolding stop_pool
  Step-IsWoken (worker s) h j =
      let (on, none_asleep) = h (WorkerStep-joining s ∙ j) in
      ((WorkerStep-lt s on).0, WorkerStep-asleep s on none_asleep)
    where
      WorkerStep-joining : {v w : World T} → WorkerStep T v w → v.joining ≡ w.joining
      WorkerStep-joining (looks us vs e) = refl
      WorkerStep-joining (finish us vs t e) = refl
  Step-IsWoken {v} (enqueue t p e) h j =
      absurd (cc ((h j).0, (add-ok T t v.pool.tasks v.pool.stop p e).0))
  Step-IsWoken {v} (notifies_one n us vs u e) h j =
      ((h j).0, awake-asleep v.workers us vs e (h j).1)
  Step-IsWoken (notifies_none n u e) h j = h j
  Step-IsWoken {v} (wakes us vs e) h j = ((h j).0, awake-asleep v.workers us vs e (h j).1)
  Step-IsWoken destruct h j = (refl, (h j).1)
  Step-IsWoken {v} (notifies_all on) h j = (on, asleep-notify_all T v.workers)

  Reach-IsWoken : (size : ℕ) {w : World T} → Reach T (start T size) w → IsWoken w
  Reach-IsWoken size here j = absurd (cc)
  Reach-IsWoken size (next r s) j = Step-IsWoken s (Reach-IsWoken size r) j

  Run-asleep :
      {v w : World T} {n : ℕ}
      → Run v n w
      → v.pool.stop ≡ true
      → asleep T v.workers ≡ 0
      → asleep T w.workers ≡ 0
  Run-asleep halt on h = h
  Run-asleep (then_step r s) on h = WorkerStep-asleep s (Run-lt r on).0 (Run-asleep r on h)

  -- Once the destructor of a pool, in any state that it can reach, has come to its joins, the
  -- threads take no more steps together than twice the queued tasks, one for each thread before
  -- its look at the queue and two for each that works, and as long as some thread has not ended,
  -- one can step, as none sleeps: the joins return.
  pub stopped_pool_ends :
      (size : ℕ) {v : World T} (n : ℕ) {w : World T}
      → Reach T (start T size) v
      → v.joining ≡ true
      → Run v n w
      → (n ≤ work_left v) × (IsJoined T w.workers ⊎ ((x : World T) × WorkerStep T w x))
  stopped_pool_ends size n {w} reached j r =
      let (on, none_asleep) = Reach-IsWoken size reached j in
      (
        omega (arith, (Run-lt r on).1),
        elim (IsJoined-dec w.workers (Run-asleep r on none_asleep)) [
          | inl joined ↦ inl joined
          | inr o ↦ inr (Open-step w o)
        ],
      )
