-- ===== src/TimerQueue/Sequence.antt =====
-- TimerQueue: timers that are added, canceled and run, one after the other, in the loop's thread.
use knet_lib.Common.{
  ℕ, ◌≡◌, ◌==◌, ==_iff, refl, ◌∙◌, true, false, [], none, some, Bool-cases, inl, inr, Outcome, ok,
  Returns, Returns-map, arith,
}
use knet_lib.TimerQueue.{Timer, TimerQueue, add_timer, cancel_timer, handle_timers, destroy_queue}
use knet_lib.TimerQueue.Linked.{times}
use knet_lib.TimerQueue.Kept.{IsKept, add_timer-IsKept, cancel_timer-IsKept}
use knet_lib.TimerQueue.Settled.{IsCareful, IsCleared, destroy_queue-Returns}
use knet_lib.TimerQueue.Owned.{Tidy, IsTidy, Returns-both, add_timer-IsOwned, cancel_timer-IsOwned}
use knet_lib.TimerQueue.Tidied.{handle_timers-Tidy}

-- The queue that the constructor makes.
abbrev pub new_queue : TimerQueue
new_queue = record { timers = []; heap = λ p. none; armed = none }

module _ (callback : ℕ → TimerQueue → Outcome TimerQueue) where
  -- A new timer has an address that is not in use, and only a timer that lives and is not canceled
  -- is canceled; the timerfd may run out at any time.
  pub data Call (q : TimerQueue) : Type 0 where
    adds : (now p when interval : ℕ) → q.heap p ≡ none → Call q
    cancels : (p : ℕ) (t : Timer) → q.heap p ≡ some t → t.canceled ≡ false → Call q
    expires : (now now' : ℕ) → Call q

  unfoldable pub make : (q : TimerQueue) → Call q → Outcome TimerQueue
  make q (adds now p when interval free) = add_timer now p when interval q
  make q (cancels p t live open_) = cancel_timer p q
  make q (expires now now') = handle_timers callback true now now' q

  pub data Reach : TimerQueue → Type 0 where
    created : Reach new_queue
    called :
        {q : TimerQueue} (r : TimerQueue) → Reach q → (call : Call q) → make q call ≡ ok r → Reach r

  module _ (careful : IsCareful callback) (tidy : IsTidy callback) where
    make-Tidy : (q : TimerQueue) (call : Call q) → Tidy [] q → Returns (Tidy []) (make q call)
    unfolding make
    make-Tidy q (adds now p when interval free) (k, o) =
        Returns-both (IsKept []) _ (add_timer now p when interval q)
          (add_timer-IsKept [] now p when interval q k free)
          (add_timer-IsOwned now p when interval q (k, o) free)
    make-Tidy q (cancels p t live open_) (k, o) =
        Returns-both (IsKept []) _ (cancel_timer p q)
          (cancel_timer-IsKept [] p t q k live open_ refl) (cancel_timer-IsOwned p t q o live open_)
    make-Tidy q (expires now now') k = handle_timers-Tidy callback careful tidy now now' q k

    reached-Tidy : {q : TimerQueue} → Reach q → Tidy [] q
    reached-Tidy created =
        (record { live = tt; waiting = tt; single = λ p. omega arith; sorted = tt }, λ p z. refl)
    reached-Tidy (called {q} r before call e) = rw e at (make-Tidy q call (reached-Tidy before))

    -- Once the timers of the entries are deleted, none is left.
    nothing_left :
        (q : TimerQueue) → Tidy [] q → Returns (λ h. (p : ℕ) → h p ≡ none) (destroy_queue q)
    nothing_left q (k, o) =
        Returns-map (IsCleared q.timers q.heap) _ (destroy_queue q) (destroy_queue-Returns q k)
          (λ h cleared p. elim (Bool-cases (times p q.timers == 0)) [
            | inl e ↦
                let z : times p q.timers ≡ 0 = (==_iff (times p q.timers) 0).0 e in
                (rw e at (cleared p)) ∙ o p (omega (arith, z))
            | inr e ↦ rw e at (cleared p)
          ])

    -- However timers are added at addresses not in use, live ones canceled and due ones run in the
    -- loop's thread, from the new queue on: each entry of the set has a live timer of its own,
    -- with the entry's time and not canceled, each timer that lives has an entry, and the set is
    -- in order; each further such call returns and keeps that, and the destructor returns and
    -- leaves no timer. The callback is one that returns and keeps set and heap together, and keeps
    -- that no timer is without an entry.
    pub calls_return :
        {q : TimerQueue}
        → Reach q
        → Tidy [] q
          × ((call : Call q) → Returns (Tidy []) (make q call))
          × Returns (λ h. (p : ℕ) → h p ≡ none) (destroy_queue q)
    calls_return {q} r = let k = reached-Tidy r in (k, λ call. make-Tidy q call k, nothing_left q k)
