-- ===== src/TimerQueue/Tidied.antt =====
-- TimerQueue: a round of expired timers loses none.
use knet_lib.Common.{
  ℕ, ◌+◌, ◌≤◌, ◌≡◌, ap, Bool, true, false, List, [], ◌∷◌, some, Outcome, ok, Returns, Returns-bind,
  le→leb, arith,
}
use knet_lib.TimerQueue.{
  Timer, Entry, TimerQueue, get_expired, settle, restart, fire, fire_all, handle_timers,
  has_expired, duration_from_now,
}
use knet_lib.TimerQueue.Linked.{times, times-append}
use knet_lib.TimerQueue.Dangling.{loaded}
use knet_lib.TimerQueue.Expiry.{get_expired_lem, AllDue}
use knet_lib.TimerQueue.Kept.{IsKept}
use knet_lib.TimerQueue.Settled.{IsCareful, timer_at, settle-IsKept, taken_out}
use knet_lib.TimerQueue.Owned.{
  IsOwned, Tidy, IsTidy, Returns-both, but_first, entered-IsOwned, deleted-IsOwned,
}

module _ (callback : ℕ → TimerQueue → Outcome TimerQueue) (careful : IsCareful callback)
    (tidy : IsTidy callback) where
  settle_parts :
      (e : Entry) (es : List Entry) (q : TimerQueue) (w i : ℕ) (repeat canceled : Bool)
      → IsOwned (e ∷ es) q.timers q.heap
      → q.heap e.1 ≡ some (record { when = w; interval = i; repeat = repeat; canceled = canceled })
      → canceled ≡ false
      → Returns (λ r. IsOwned es r.timers r.heap) (settle callback e.1 q)
  unfolding settle restart
  settle_parts e es q w i repeat true o at_ live = absurd (cc)
  settle_parts e es q w i true false o at_ live =
      let t : Timer = record { when = w; interval = i; repeat = true; canceled = false } in
      simp (loaded e.1 t q.heap at_) (
        entered-IsOwned es q.timers (w + i) e.1 (some (record t { when = w + i })) q.heap
          (but_first e es q o))
  settle_parts e es q w i false false o at_ live =
      let t : Timer = record { when = w; interval = i; repeat = false; canceled = false } in
      simp (loaded e.1 t q.heap at_) (deleted-IsOwned es q.timers e.1 q.heap (but_first e es q o))

  settle-Tidy :
      (e : Entry) (es : List Entry) (q : TimerQueue)
      → Tidy (e ∷ es) q
      → Returns (Tidy es) (settle callback e.1 q)
  settle-Tidy e es q (k, o) =
      let (t, at_, when, live) = timer_at e.0 (q.heap e.1) k.waiting.0 in
      Returns-both (IsKept es) (λ r. IsOwned es r.timers r.heap) (settle callback e.1 q)
        (settle-IsKept callback careful e es q k)
        (settle_parts e es q t.when t.interval t.repeat t.canceled o at_ live)

  fire-Tidy :
      (now : ℕ) (e : Entry) (es : List Entry) (q : TimerQueue)
      → e.0 ≤ now
      → Tidy (e ∷ es) q
      → Returns (Tidy es) (fire callback now e.1 q)
  unfolding fire
  fire-Tidy now e es q due (k, o) =
      let (t, at_, when, live) = timer_at e.0 (q.heap e.1) k.waiting.0 in
      let ripe : has_expired now t ≡ true = le→leb t.when now (omega arith) in
      simp (loaded e.1 t q.heap at_, ripe, live)
        (Returns-bind (Tidy (e ∷ es)) (Tidy es) (callback e.1 q) (settle callback e.1)
          (tidy e.1 (e ∷ es) q (k, o)) (settle-Tidy e es))

  fire_all-Tidy :
      (now : ℕ) (es : List Entry) (q : TimerQueue)
      → AllDue now es
      → Tidy es q
      → Returns (Tidy []) (fire_all callback now es q)
  unfolding fire_all
  fire_all-Tidy now [] q d k = k
  fire_all-Tidy now (e ∷ es) q d k =
      Returns-bind (Tidy es) (Tidy []) (fire callback now e.1 q) (fire_all callback now es)
        (fire-Tidy now e es q d.0 k) (λ q' k'. fire_all-Tidy now es q' d.1 k')

  taken_out-IsOwned :
      (now : ℕ) (q : TimerQueue)
      → Tidy [] q
      → IsOwned (get_expired now q.timers).0 (get_expired now q.timers).1 q.heap
  taken_out-IsOwned now q (k, o) p z =
      let (whole, all_due, none_due, sorted) = get_expired_lem now q.timers k.sorted in
      let (expired, rest) = get_expired now q.timers in
      o p (omega (arith, z, times-append p expired rest, ap (times p) whole))

  rearmed_still :
      (now : ℕ) (ts : List Entry) (q : TimerQueue)
      → Tidy [] q
      → Returns
          (Tidy [])
          (ok (elim ts [ [] ↦ q | e ∷ es ↦ record q { armed = some (duration_from_now now e.0) } ]))
  rearmed_still now [] q k = k
  rearmed_still now (e ∷ es) q (k, o) =
      (record { live = k.live; waiting = k.waiting; single = k.single; sorted = k.sorted }, o)

  pub handle_timers-Tidy :
      (now now' : ℕ) (q : TimerQueue)
      → Tidy [] q
      → Returns (Tidy []) (handle_timers callback true now now' q)
  unfolding handle_timers
  handle_timers-Tidy now now' q (k, o) =
      let (taken, due) = taken_out callback careful now q k in
      Returns-bind (Tidy []) (Tidy [])
        (fire_all callback now (get_expired now q.timers).0
          (record q { timers = (get_expired now q.timers).1 }))
        _ (fire_all-Tidy now _ _ due (taken, taken_out-IsOwned now q (k, o)))
        (λ r k'. rearmed_still now' r.timers r k')
