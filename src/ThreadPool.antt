-- ===== src/ThreadPool.antt =====
-- include/knetlib/ThreadPool.h and src/ThreadPool.cpp: a queue of tasks and the threads that run
-- them. A task is a value, and one that runs comes to its end. The parts under the mutex are atomic.
pub mod Counts
pub mod Tasks
pub mod Ends
pub mod Notified
mod Tests
use knet_lib.Common.{
  ℕ, suc, ◌+◌, ◌≡◌, Bool, true, false, List, [], ◌∷◌, ◌++◌, map, replicate, if◌then◌else◌, Outcome,
  ok, crash, runtime_error,
}

module _ (T : Type 0) where
  pub record ThreadPool : Type 0 where
    pub tasks : List T
    pub stop : Bool

  -- The pool that the constructor makes, before any thread has begun.
  abbrev pub new_thread_pool : ThreadPool
  new_thread_pool = record { tasks = []; stop = false }

  -- The future that `add` returns is left out.
  unfoldable pub add : T → ThreadPool → Outcome ThreadPool
  add t p = if p.stop then crash runtime_error else ok (record p { tasks = p.tasks ++ t ∷ [] })

  -- The part of ~ThreadPool under the mutex.
  unfoldable pub stop_pool : ThreadPool → ThreadPool
  stop_pool p = record p { stop = true }

  -- Where a thread is: before its look at the queue, asleep in `cv.wait`, in a task, or at its end.
  pub data Worker : Type 0 where
    waiting sleeping returned : Worker
    working : T → Worker

  -- A thread looks at the queue: it goes to sleep, ends, or takes the front task.
  unfoldable pub look : List T → Bool → Worker × List T
  look [] stop = (if stop then returned else sleeping, [])
  look (t ∷ ts) stop = (working t, ts)

  abbrev pub woken : Worker → Worker
  woken waiting = waiting
  woken sleeping = waiting
  woken returned = returned
  woken (working t) = working t

  -- `cv.notify_all`.
  unfoldable pub notify_all : List Worker → List Worker
  notify_all ws = map woken ws

  abbrev pub one_if_asleep : Worker → ℕ
  one_if_asleep waiting = 0
  one_if_asleep sleeping = 1
  one_if_asleep returned = 0
  one_if_asleep (working t) = 0

  -- How many threads sleep in `cv.wait`.
  abbrev pub asleep : List Worker → ℕ
  asleep [] = 0
  asleep (w ∷ ws) = one_if_asleep w + asleep ws

  -- The threads that the constructor starts.
  abbrev pub new_workers : ℕ → List Worker
  new_workers size = replicate size waiting

  abbrev pub task_of : Worker → List T
  task_of waiting = []
  task_of sleeping = []
  task_of returned = []
  task_of (working t) = t ∷ []

  -- `unnotified` is how many calls of `add` have yet to come to their `cv.notify_one`, and `joining`
  -- says that the destructor has come to its joins. `accepted` are the tasks that `add` has taken in, `taken` those that a thread has taken out, and
  -- `finished` those that came to their end.
  pub record World : Type 0 where
    pub pool : ThreadPool
    pub workers : List Worker
    pub unnotified : ℕ
    pub joining : Bool
    pub accepted : List T
    pub taken : List T
    pub finished : List T

  -- What the threads of the pool do.
  pub data WorkerStep (w : World) : World → Type 0 where
    looks :
        (us vs : List Worker)
        → w.workers ≡ us ++ waiting ∷ vs
        → WorkerStep w (record w {
          pool = record { tasks = (look w.pool.tasks w.pool.stop).1; stop = w.pool.stop };
          workers = us ++ (look w.pool.tasks w.pool.stop).0 ∷ vs;
          taken = w.taken ++ task_of (look w.pool.tasks w.pool.stop).0;
        })
    finish :
        (us vs : List Worker) (t : T)
        → w.workers ≡ us ++ working t ∷ vs
        → WorkerStep w (record w { workers = us ++ waiting ∷ vs; finished = w.finished ++ t ∷ [] })

  pub data Step (w : World) : World → Type 0 where
    worker : {v : World} → WorkerStep w v → Step w v
    -- Any thread calls `add`, and it does not throw; the notification comes after the mutex.
    enqueue :
        (t : T) (p : ThreadPool)
        → add t w.pool ≡ ok p
        → Step w
            (record w { pool = p; unnotified = suc w.unnotified; accepted = w.accepted ++ t ∷ [] })
    -- `cv.notify_one` wakes a thread that sleeps, if any does.
    notifies_one :
        (n : ℕ) (us vs : List Worker)
        → w.unnotified ≡ suc n
        → w.workers ≡ us ++ sleeping ∷ vs
        → Step w (record w { workers = us ++ waiting ∷ vs; unnotified = n })
    notifies_none :
        (n : ℕ) → w.unnotified ≡ suc n → asleep w.workers ≡ 0 → Step w (record w { unnotified = n })
    -- A thread wakes by itself.
    wakes :
        (us vs : List Worker)
        → w.workers ≡ us ++ sleeping ∷ vs
        → Step w (record w { workers = us ++ waiting ∷ vs })
    -- The destructor stops the pool, then wakes all threads, and joins them after that.
    destruct : Step w (record w { pool = stop_pool w.pool })
    notifies_all :
        w.pool.stop ≡ true → Step w (record w { workers = notify_all w.workers; joining = true })

  pub data Reach (v : World) : World → Type 0 where
    here : Reach v v
    next : {w x : World} → Reach v w → Step w x → Reach v x

  abbrev pub start : ℕ → World
  start size = record {
    pool = new_thread_pool;
    workers = new_workers size;
    unnotified = 0;
    joining = false;
    accepted = [];
    taken = [];
    finished = [];
  }

  -- Every thread has ended, so that the destructor's joins return.
  abbrev pub IsJoined : List Worker → Type 0
  IsJoined [] = Unit
  IsJoined (waiting ∷ ws) = ⊥
  IsJoined (sleeping ∷ ws) = ⊥
  IsJoined (working t ∷ ws) = ⊥
  IsJoined (returned ∷ ws) = IsJoined ws
