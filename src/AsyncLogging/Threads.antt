-- ===== src/AsyncLogging/Threads.antt =====
-- src/AsyncLogging.cpp: the writing thread among the threads that append, as a step relation. The
-- lock makes `append` and the first part of a round atomic; while the thread writes, others append.
pub mod Ordered
pub mod Taking
pub mod Joined
mod Tests
use knet_lib.Common.{
  ℕ, ◌<◌, ◌≤◌, ◌≡◌, ◌≢◌, Bool, true, false, List, [], ◌∷◌, ◌++◌, length, Outcome, ok, suc, zero,
}
use knet_lib.AsyncLogging.{
  Files, Front, Logging, initial, max_buffers, collect, write_out, final_flush, log,
}
use knet_lib.AsyncLogging.Rounds.{pending, queue_of}

-- Where the writing thread is: at the test of `running_`, between a test that held and the end of
-- its wait, writing `buffersToWrite` without the lock, or at its end.
pub data Writer : Type 0 where
  at_loop : Writer
  in_wait : Writer
  writing : List (List ℕ) → Writer
  ended : Writer

-- `accepted` is what `append` has taken so far, in order.
pub record World : Type 0 where
  pub logging : Logging
  pub running : Bool
  pub writer : Writer
  pub accepted : List ℕ

module _ (roll_size : ℕ) where
  -- The steps of the writing thread. The wait on the condition variable ends at any time, by its
  -- timeout at the latest, so that the thread may also find nothing to write.
  pub data WriterStep (w : World) : World → Type 0 where
    goes_in : w.writer ≡ at_loop → w.running ≡ true → WriterStep w (record w { writer = in_wait })
    takes :
        w.writer ≡ in_wait
        → WriterStep w
            (record w { logging = (collect w.logging).0; writer = writing (collect w.logging).1 })
    writes :
        (queue : List (List ℕ)) (opens : ℕ → Bool) (l : Logging)
        → w.writer ≡ writing queue
        → write_out roll_size opens (w.logging, queue) ≡ ok l
        → WriterStep w (record w { logging = l; writer = at_loop })
    flushes :
        (opens : Bool)
        → w.writer ≡ at_loop
        → w.running ≡ false
        → WriterStep w (record w { logging = final_flush opens w.logging; writer = ended })

  pub data Step (w : World) : World → Type 0 where
    writer_steps : {v : World} → WriterStep w v → Step w v
    -- Any thread appends a line, before the writing thread is at its end.
    appends :
        (line : List ℕ) (l : Logging)
        → w.writer ≢ ended
        → 0 < length line
        → log line w.logging ≡ ok l
        → Step w (record w { logging = l; accepted = w.accepted ++ line })
    -- The owner calls `stop`, and waits in the join.
    stops : Step w (record w { running = false })

  pub data Reach (v : World) : World → Type 0 where
    here : Reach v v
    next : {w x : World} → Reach v w → Step w x → Reach v x

  -- A round finds bytes, in at most 25 buffers, and every file opens.
  abbrev pub IsServed : {w v : World} → WriterStep w v → Type 0
  IsServed (goes_in at_ on) = Unit
  IsServed {w} (takes at_) =
      (0 < length (pending w.logging.front)) × (length (queue_of w.logging.front) ≤ max_buffers)
  IsServed (writes queue opens l at_ e) = (i : ℕ) → opens i ≡ true
  IsServed (flushes opens at_ off) = opens ≡ true

  abbrev pub AllServed : {w v : World} → Reach w v → Type 0
  AllServed here = Unit
  AllServed (next r (writer_steps s)) = AllServed r × IsServed s
  AllServed (next r (appends line l b p e)) = AllServed r
  AllServed (next r stops) = AllServed r

-- `start`, on files as they are.
abbrev pub started : Files → World
started fs = record { logging = initial fs; running = true; writer = at_loop; accepted = [] }
