-- ===== src/ThreadPool/Tests.antt =====
-- ThreadPool: a pool of one thread runs one task and is destroyed.
use knet_lib.Common.{ℕ, ◌+◌, ◌<◌, ◌≤◌, ◌≡◌, refl, ◌⊎◌, true, false, [], ◌∷◌, ◌++◌, arith, ◌==◌}
use knet_lib.ThreadPool.{
  ThreadPool, add, stop_pool, look, World, WorkerStep, looks, finish, worker, enqueue, destruct,
  notifies_all, notify_all, Reach, here, next, start, IsJoined,
}
use knet_lib.ThreadPool.Tasks.{taken_in_order, joined_all_run}
use knet_lib.ThreadPool.Counts.{count}
use knet_lib.ThreadPool.Notified.{awake, queued_task_noticed}
use knet_lib.ThreadPool.Ends.{Run, halt, then_step, work_left, stopped_pool_ends}

abbrev queued : ThreadPool ℕ
queued = record { tasks = 7 ∷ []; stop = false }

begun : (w : World ℕ) × Reach ℕ (start ℕ 1) w
unfolding add look
begun = (_, next (next here (enqueue 7 queued refl)) (worker (looks [] [] refl)))

-- A thread that sleeps when a task comes in.
unnoticed : (w : World ℕ) × Reach ℕ (start ℕ 1) w
unfolding add look
unnoticed = (_, next (next here (worker (looks [] [] refl))) (enqueue 7 queued refl))

-- The thread is asleep when the pool is destroyed.
joins : (w : World ℕ) × Reach ℕ (start ℕ 1) w
unfolding add look stop_pool notify_all
joins = (
  _,
  next
      (next
        (next
          (next (next (next here (enqueue 7 queued refl)) (worker (looks [] [] refl)))
            (worker (finish [] [] 7 refl)))
          (worker (looks [] [] refl)))
        destruct)
      (notifies_all refl),
)

ended : (w : World ℕ) × (Reach ℕ (start ℕ 1) w × IsJoined ℕ w.workers)
unfolding joins add look stop_pool notify_all
ended = (_, (next joins.1 (worker (looks [] [] refl)), tt))

taken_in_order_example : begun.0.taken ++ begun.0.pool.tasks ≡ begun.0.accepted
taken_in_order_example = taken_in_order ℕ 1 begun.1

joined_all_run_example :
    (ended.0.pool.stop ≡ true)
    × (ended.0.pool.tasks ≡ [])
    × (count ℕ (◌==◌ 7) ended.0.finished ≡ count ℕ (◌==◌ 7) ended.0.accepted)
joined_all_run_example = joined_all_run ℕ 1 (◌==◌ 7) ended.1.0 (omega arith) ended.1.1

queued_task_noticed_example : 0 < unnoticed.0.unnotified + awake ℕ unnoticed.0.workers
unfolding unnoticed
queued_task_noticed_example = queued_task_noticed ℕ 1 unnoticed.1 (omega arith) (omega arith)

one_step : (w : World ℕ) × Run ℕ joins.0 1 w
unfolding joins add look stop_pool notify_all
one_step = (_, then_step halt (looks [] [] refl))

stopped_pool_ends_example :
    (1 ≤ work_left ℕ joins.0)
    × (IsJoined ℕ one_step.0.workers ⊎ ((x : World ℕ) × WorkerStep ℕ one_step.0 x))
unfolding joins
stopped_pool_ends_example = stopped_pool_ends ℕ 1 1 joins.1 refl one_step.1
