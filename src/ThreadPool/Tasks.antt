-- ===== src/ThreadPool/Tasks.antt =====
-- ThreadPool: no task that was accepted is lost, run twice or overtaken.
use knet_lib.Common.{
  ℕ, zero, suc, ◌+◌, ◌<◌, length-replicate, ◌≡◌, refl, sym, ap, ◌∙◌, Bool, true, false, List, [],
  ◌∷◌, ◌++◌, length, append_assoc, append-nil, ok, arith,
}
use knet_lib.ThreadPool.{
  ThreadPool, add, stop_pool, Worker, waiting, sleeping, returned, working, look, new_workers,
  task_of, World, WorkerStep, looks, finish, Step, worker, enqueue, notifies_one, notifies_none,
  wakes, destruct, notifies_all, Reach, here, next, start, IsJoined,
}
use knet_lib.ThreadPool.Counts.{
  count, held, one_if_ended, ended, count-append, count-held, ended-split, held-notify_all,
  ended-notify_all, length-notify_all, length-split,
}

module _ (T : Type 0) where
  pub record IsKept (w : World T) : Type 0 where
    order : w.taken ++ w.pool.tasks ≡ w.accepted
    runs : (q : T → Bool) → count T q w.taken ≡ count T q w.finished + count T q (held T w.workers)
    pub closed : 0 < ended T w.workers → (w.pool.stop ≡ true) × (w.pool.tasks ≡ [])

  ended-new : (n : ℕ) → ended T (new_workers T n) ≡ 0
  ended-new zero = refl
  ended-new (suc n) = omega (arith, ended-new n)

  held-new : (n : ℕ) → held T (new_workers T n) ≡ []
  held-new zero = refl
  held-new (suc n) = held-new n

  start-IsKept : (n : ℕ) → IsKept (start T n)
  start-IsKept n = record {
    order = refl;
    runs = λ q. omega (arith, ap (count T q) (held-new n));
    closed = λ h. absurd (omega (arith, ended-new n));
  }

  -- A thread that looks at a queue `ts` and finds the flag `stop`.
  look-order :
      (ts taken : List T) (stop : Bool)
      → (taken ++ task_of T (look T ts stop).0) ++ (look T ts stop).1 ≡ taken ++ ts
  unfolding look
  look-order [] taken true = append-nil (taken ++ [])
  look-order [] taken false = append-nil (taken ++ [])
  look-order (t ∷ ts) taken stop = append_assoc taken (t ∷ []) ts

  look-closed :
      (ts : List T) (stop : Bool) (n : ℕ)
      → (0 < n → (stop ≡ true) × (ts ≡ []))
      → 0 < one_if_ended T (look T ts stop).0 + n
      → (stop ≡ true) × ((look T ts stop).1 ≡ [])
  unfolding look
  look-closed [] true n h p = (refl, refl)
  look-closed [] false n h p = h (omega arith)
  look-closed (t ∷ ts) stop n h p = let k = h (omega arith) in (k.0, absurd (cc (k.1)))

  WorkerStep-IsKept : {v w : World T} → WorkerStep T v w → IsKept v → IsKept w
  WorkerStep-IsKept {v} (looks us vs e) k =
      let found = look T v.pool.tasks v.pool.stop in
      record {
        order = look-order v.pool.tasks v.taken v.pool.stop ∙ k.order;
        runs = λ q. omega (
          arith,
          k.runs q,
          ap (λ ws. count T q (held T ws)) e,
          count-held T q us vs waiting,
          count-held T q us vs found.0,
          count-append T q v.taken (task_of T found.0),
        );
        closed = λ p.
            look-closed v.pool.tasks v.pool.stop (ended T (us ++ vs))
              (λ h. k.closed (omega (arith, ap (ended T) e, ended-split T us vs waiting)))
              (omega (arith, ended-split T us vs found.0));
      }
  WorkerStep-IsKept {v} (finish us vs t e) k = record {
    order = k.order;
    runs = λ q. omega (
      arith,
      k.runs q,
      ap (λ ws. count T q (held T ws)) e,
      count-held T q us vs waiting,
      count-held T q us vs (working t),
      count-append T q v.finished (t ∷ []),
    );
    closed = λ p. k.closed (
        omega
          (arith, ap (ended T) e, ended-split T us vs waiting, ended-split T us vs (working t)));
  }

  pub add-ok :
      (t : T) (tasks : List T) (stop : Bool) (p : ThreadPool T)
      → add T t (record { tasks = tasks; stop = stop }) ≡ ok p
      → (stop ≡ false) × (record { tasks = tasks ++ t ∷ []; stop = false } ≡ p)
  unfolding add
  add-ok t tasks true p e = absurd (cc)
  add-ok t tasks false p e = (refl, cc)

  -- Waking a thread changes neither the tasks nor the threads that ended.
  awake-IsKept :
      {v : World T} (us vs : List (Worker T)) (n : ℕ)
      → v.workers ≡ us ++ sleeping ∷ vs
      → IsKept v
      → IsKept (record v { workers = us ++ waiting ∷ vs; unnotified = n })
  awake-IsKept us vs n e k = record {
    order = k.order;
    runs = λ q. omega (
      arith,
      k.runs q,
      ap (λ ws. count T q (held T ws)) e,
      count-held T q us vs waiting,
      count-held T q us vs sleeping,
    );
    closed = λ p.
        k.closed (
          omega (arith, ap (ended T) e, ended-split T us vs waiting, ended-split T us vs sleeping));
  }

  Step-IsKept : {v w : World T} → Step T v w → IsKept v → IsKept w
  unfolding stop_pool
  Step-IsKept (worker s) k = WorkerStep-IsKept s k
  Step-IsKept {v} (enqueue t p e) k =
      let a = add-ok t v.pool.tasks v.pool.stop p e in
      record {
        order =
            ap (λ (p : ThreadPool T). v.taken ++ p.tasks) (sym (a.1))
            ∙ sym (append_assoc v.taken v.pool.tasks (t ∷ []))
            ∙ ap (λ ts. ts ++ t ∷ []) k.order;
        runs = k.runs;
        closed = λ h. absurd (cc ((k.closed h).0, a.0));
      }
  Step-IsKept (notifies_one n us vs u e) k = awake-IsKept us vs n e k
  Step-IsKept (notifies_none n u e) k = record { order = k.order; runs = k.runs; closed = k.closed }
  Step-IsKept {v} (wakes us vs e) k = awake-IsKept us vs v.unnotified e k
  Step-IsKept {v} (notifies_all on) k = record {
    order = k.order;
    runs = λ q. omega (arith, k.runs q, ap (count T q) (held-notify_all T v.workers));
    closed = λ p. k.closed (omega (arith, ended-notify_all T v.workers));
  }
  Step-IsKept destruct k = record {
    order = k.order;
    runs = k.runs;
    closed = λ h. (refl, (k.closed h).1);
  }

  pub Reach-IsKept : (size : ℕ) {w : World T} → Reach T (start T size) w → IsKept w
  Reach-IsKept size here = start-IsKept size
  Reach-IsKept size (next r s) = Step-IsKept s (Reach-IsKept size r)

  -- At every time the tasks that the threads have taken, followed by those in the queue, are the
  -- accepted ones in order.
  pub taken_in_order :
      (size : ℕ) {w : World T} → Reach T (start T size) w → w.taken ++ w.pool.tasks ≡ w.accepted
  taken_in_order size r = (Reach-IsKept size r).order

  joined-ended : (ws : List (Worker T)) → IsJoined T ws → ended T ws ≡ length ws
  joined-ended [] j = refl
  joined-ended (waiting ∷ ws) j = absurd j
  joined-ended (sleeping ∷ ws) j = absurd j
  joined-ended (working t ∷ ws) j = absurd j
  joined-ended (returned ∷ ws) j = omega (arith, joined-ended ws j)

  joined-held : (ws : List (Worker T)) → IsJoined T ws → held T ws ≡ []
  joined-held [] j = refl
  joined-held (waiting ∷ ws) j = absurd j
  joined-held (sleeping ∷ ws) j = absurd j
  joined-held (working t ∷ ws) j = absurd j
  joined-held (returned ∷ ws) j = joined-held ws j

  WorkerStep-length : {v w : World T} → WorkerStep T v w → length w.workers ≡ length v.workers
  WorkerStep-length {v} (looks us vs e) =
      length-split T us vs (look T v.pool.tasks v.pool.stop).0 waiting ∙ sym (ap length e)
  WorkerStep-length {v} (finish us vs t e) =
      length-split T us vs waiting (working t) ∙ sym (ap length e)

  Step-length : {v w : World T} → Step T v w → length w.workers ≡ length v.workers
  Step-length (worker s) = WorkerStep-length s
  Step-length (enqueue t p e) = refl
  Step-length (notifies_one n us vs u e) = length-split T us vs waiting sleeping ∙ sym (ap length e)
  Step-length (notifies_none n u e) = refl
  Step-length (wakes us vs e) = length-split T us vs waiting sleeping ∙ sym (ap length e)
  Step-length {v} (notifies_all on) = length-notify_all T v.workers
  Step-length destruct = refl

  pub Reach-length : (size : ℕ) {w : World T} → Reach T (start T size) w → length w.workers ≡ size
  Reach-length size here = length-replicate size waiting
  Reach-length size (next r s) = Step-length s ∙ Reach-length size r

  -- When every thread of a pool of at least one thread has ended, whatever was enqueued, run and
  -- stopped before, the pool was stopped, its queue is empty, and each accepted task has been run
  -- just as often as it was accepted.
  pub joined_all_run :
      (size : ℕ) {w : World T} (q : T → Bool)
      → Reach T (start T size) w
      → 0 < size
      → IsJoined T w.workers
      → (w.pool.stop ≡ true) × (w.pool.tasks ≡ []) × (count T q w.finished ≡ count T q w.accepted)
  joined_all_run size {w} q r p j =
      let k = Reach-IsKept size r in
      let c = k.closed (omega (arith, joined-ended w.workers j, Reach-length size r)) in
      (
        c.0,
        c.1,
        omega (
          arith,
          k.runs q,
          ap (count T q) (joined-held w.workers j),
          ap (count T q) k.order,
          count-append T q w.taken w.pool.tasks,
          ap (count T q) c.1,
        ),
      )
