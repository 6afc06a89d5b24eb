-- ===== src/EventLoopThread.antt =====
-- include/knetlib/EventLoopThread.h and src/EventLoopThread.cpp: a thread that makes a loop and runs
-- it, and the owner that starts and stops the thread. The loop's own operations are EventLoop's; no
-- channel but its wake-up channel has events.
pub mod Stop
mod Tests
use knet_lib.Common.{
  ℕ, suc, ◌<◌, ◌≡◌, Bool, true, false, List, [], if◌then◌else◌, Outcome, ok, crash, check, ◌>>=◌,
  ◌>>◌,
}
use knet_lib.EventLoop.{EventLoop, new_loop, quit, enter_loop, iterate}

module _ (T : Type 0) (spawns : T → List T) (quits : T → Bool) where
  -- Where the thread is: not started, before it gives its loop away, after that, in `loop`, behind
  -- it, and at its end.
  pub data Phase : Type 0 where
    not_started creating published looping left ended : Phase

  -- Where the owner is: outside, in the wait of `startLoop`, in the join of `stop`, and behind it.
  pub data Owner : Type 0 where
    outside starting joining joined : Owner

  -- `loop_set` says that `loop_` is not null; `loop` is the loop on the thread's stack.
  pub record EventLoopThread : Type 0 where
    pub loop_set : Bool
    pub exiting : Bool
    pub loop : EventLoop T
    pub phase : Phase
    pub owner : Owner

  abbrev pub new_thread : EventLoopThread
  new_thread = record {
    loop_set = false;
    exiting = false;
    loop = new_loop T;
    phase = not_started;
    owner = outside;
  }

  -- The first part of `startLoop`.
  unfoldable pub start_thread : EventLoopThread → Outcome EventLoopThread
  start_thread w = do
    check (if w.loop_set then false else true)
    ok (record w { phase = creating; owner = starting })

  -- `stop`, up to the join.
  unfoldable pub begin_stop : EventLoopThread → EventLoopThread
  unfolding quit
  begin_stop w = if w.exiting then w else record w {
    exiting = true;
    loop = if w.loop_set then quit T false w.loop else w.loop;
    owner = joining;
  }

  abbrev pub after_round : EventLoop T → Phase
  after_round l = if l.quit_flag then left else looping

  -- What the thread does.
  pub data ThreadStep (w : EventLoopThread) : EventLoopThread → Type 0 where
    publish : w.phase ≡ creating → ThreadStep w (record w { phase = published; loop_set = true })
    enter :
        (l : EventLoop T)
        → w.phase ≡ published
        → enter_loop T true w.loop ≡ ok l
        → ThreadStep w (record w { phase = looping; loop = l })
    -- The eventfd ends the wait of poll.
    round :
        (l : EventLoop T)
        → w.phase ≡ looping
        → 0 < w.loop.wakeups
        → iterate T spawns quits true [] w.loop ≡ ok l
        → ThreadStep w (record w { phase = after_round l; loop = l })
    leave : w.phase ≡ left → ThreadStep w (record w { phase = ended; loop_set = false })

  pub data Step (w : EventLoopThread) : EventLoopThread → Type 0 where
    thread : {v : EventLoopThread} → ThreadStep w v → Step w v
    start :
        (v : EventLoopThread)
        → w.owner ≡ outside
        → w.phase ≡ not_started
        → start_thread w ≡ ok v
        → Step w v
    -- The wait of `startLoop` ends.
    started : w.owner ≡ starting → w.loop_set ≡ true → Step w (record w { owner = outside })
    stop : w.owner ≡ outside → w.exiting ≡ false → Step w (begin_stop w)
    -- The join returns, also where no thread was started.
    join : w.owner ≡ joining → w.phase ≡ ended → Step w (record w { owner = joined })
    join_none : w.owner ≡ joining → w.phase ≡ not_started → Step w (record w { owner = joined })

  pub data Reach (v : EventLoopThread) : EventLoopThread → Type 0 where
    here : Reach v v
    next : {w x : EventLoopThread} → Reach v w → Step w x → Reach v x

  -- A number of steps of the thread in a row.
  pub data Run (v : EventLoopThread) : ℕ → EventLoopThread → Type 0 where
    halt : Run v 0 v
    then_step : {n : ℕ} {w x : EventLoopThread} → Run v n w → ThreadStep w x → Run v (suc n) x
