-- ===== src/TimerQueue/Settled.antt =====
-- TimerQueue: a round of expired timers, and the end of the queue, where set and heap are kept
-- together.
use knet_lib.Common.{
  ℕ, ◌+◌, ◌≤◌, ◌==◌, ◌≡◌, refl, sym, ap, subst, ◌∙◌, Bool, true, false, List, [], ◌∷◌, Option, none,
  some, Bool-cases, inl, inr, if◌then◌else◌, Outcome, ok, Returns, Returns-bind, Returns-map, arith,
  eq→==, le→leb, ==_iff,
}
use knet_lib.TimerQueue.{
  delete_all, destroy_queue, Timer, Timespec, Entry, TimerQueue, Heap, put, restart, settle, fire,
  fire_all, get_expired, handle_timers, duration_from_now, has_expired,
}
use knet_lib.TimerQueue.Dangling.{loaded}
use knet_lib.TimerQueue.Expiry.{AllDue, get_expired_lem}
use knet_lib.TimerQueue.Linked.{
  IsTimerAt, AllLinked, times, times_self, AllLinked-put, AllLinked-append, times-append,
}
use knet_lib.TimerQueue.Kept.{IsKept, entered}

pub timer_at :
    (w : ℕ) (o : Option Timer)
    → IsTimerAt w o
    → (t : Timer) × (o ≡ some t) × (t.when ≡ w) × (t.canceled ≡ false)
timer_at w none i = absurd i
timer_at w (some t) i = (t, refl, i.0, i.1)

-- The first of the entries that wait is left to itself.
released :
    (e : Entry) (es : List Entry) (q : TimerQueue)
    → IsKept (e ∷ es) q
    → IsKept es q × (times e.1 q.timers ≡ 0) × (times e.1 es ≡ 0)
released e es q k =
    let one = times_self e.0 e.1 es in
    (
      record {
        live = k.live;
        waiting = k.waiting.1;
        single = λ r. omega (arith, k.single r);
        sorted = k.sorted;
      },
      omega (arith, k.single e.1, one),
      omega (arith, k.single e.1, one),
    )

-- A timer taken off the heap that is in no entry.
deleted :
    (pending : List Entry) (p : ℕ) (q : TimerQueue)
    → IsKept pending q
    → times p q.timers ≡ 0
    → times p pending ≡ 0
    → IsKept pending (record q { heap = put p none q.heap })
deleted pending p q k z z' = record {
  live = AllLinked-put p none q.heap q.timers z k.live;
  waiting = AllLinked-put p none q.heap pending z' k.waiting;
  single = k.single;
  sorted = k.sorted;
}

-- A callback that keeps set and heap together, and leaves the timers that still wait alone.
abbrev pub IsCareful : (ℕ → TimerQueue → Outcome TimerQueue) → Type 0
IsCareful callback =
    (p : ℕ) (pending : List Entry) (q : TimerQueue)
    → IsKept pending q
    → Returns (IsKept pending) (callback p q)

-- The timerfd is set for the first entry.
abbrev pub IsArmed : ℕ → List Entry → Option Timespec → Type 0
IsArmed now [] armed = Unit
IsArmed now (e ∷ es) armed = armed ≡ some (duration_from_now now e.0)

module _ (callback : ℕ → TimerQueue → Outcome TimerQueue) (careful : IsCareful callback) where
  settle_parts :
      (e : Entry) (es : List Entry) (q : TimerQueue) (w i : ℕ) (repeat canceled : Bool)
      → IsKept (e ∷ es) q
      → q.heap e.1 ≡ some (record { when = w; interval = i; repeat = repeat; canceled = canceled })
      → canceled ≡ false
      → Returns (IsKept es) (settle callback e.1 q)
  unfolding settle restart
  settle_parts e es q w i repeat true k at_ live = absurd (cc)
  settle_parts e es q w i true false k at_ live =
      let t : Timer = record { when = w; interval = i; repeat = true; canceled = false } in
      let (k', z, z') = released e es q k in
      simp (loaded e.1 t q.heap at_)
        (entered es e.1 (w + i) (record t { when = w + i }) q k' z z' refl refl)
  settle_parts e es q w i false false k at_ live =
      let t : Timer = record { when = w; interval = i; repeat = false; canceled = false } in
      let (k', z, z') = released e es q k in
      simp (loaded e.1 t q.heap at_) (deleted es e.1 q k' z z')

  pub settle-IsKept :
      (e : Entry) (es : List Entry) (q : TimerQueue)
      → IsKept (e ∷ es) q
      → Returns (IsKept es) (settle callback e.1 q)
  settle-IsKept e es q k =
      let (t, at_, when, live) = timer_at e.0 (q.heap e.1) k.waiting.0 in
      settle_parts e es q t.when t.interval t.repeat t.canceled k at_ live

  fire-IsKept :
      (now : ℕ) (e : Entry) (es : List Entry) (q : TimerQueue)
      → e.0 ≤ now
      → IsKept (e ∷ es) q
      → Returns (IsKept es) (fire callback now e.1 q)
  unfolding fire
  fire-IsKept now e es q due k =
      let (t, at_, when, live) = timer_at e.0 (q.heap e.1) k.waiting.0 in
      let ripe : has_expired now t ≡ true = le→leb t.when now (omega arith) in
      simp (loaded e.1 t q.heap at_, ripe, live)
        (Returns-bind (IsKept (e ∷ es)) (IsKept es) (callback e.1 q) (settle callback e.1)
          (careful e.1 (e ∷ es) q k) (settle-IsKept e es))

  fire_all-IsKept :
      (now : ℕ) (es : List Entry) (q : TimerQueue)
      → AllDue now es
      → IsKept es q
      → Returns (IsKept []) (fire_all callback now es q)
  unfolding fire_all
  fire_all-IsKept now [] q d k = k
  fire_all-IsKept now (e ∷ es) q d k =
      Returns-bind (IsKept es) (IsKept []) (fire callback now e.1 q) (fire_all callback now es)
        (fire-IsKept now e es q d.0 k) (λ q' k'. fire_all-IsKept now es q' d.1 k')

  -- A round takes the expired entries out.
  pub taken_out :
      (now : ℕ) (q : TimerQueue)
      → IsKept [] q
      → IsKept (get_expired now q.timers).0 (record q { timers = (get_expired now q.timers).1 })
        × AllDue now (get_expired now q.timers).0
  taken_out now q k =
      let (whole, all_due, none_due, sorted) = get_expired_lem now q.timers k.sorted in
      let (expired, rest) = get_expired now q.timers in
      let (due, later) =
        AllLinked-append q.heap expired rest (subst (AllLinked q.heap) (sym whole) k.live) in
      (
        record {
          live = later;
          waiting = due;
          single = λ p. omega (arith, k.single p, times-append p expired rest, ap (times p) whole);
          sorted = sorted;
        },
        all_due,
      )

  rearmed :
      (now : ℕ) (ts : List Entry) (q : TimerQueue)
      → ts ≡ q.timers
      → IsKept [] q
      → Returns
          (λ r. IsKept [] r × IsArmed now r.timers r.armed)
          (ok (elim ts [ [] ↦ q | e ∷ es ↦ record q { armed = some (duration_from_now now e.0) } ]))
  rearmed now [] q same k = (k, subst (λ es. IsArmed now es q.armed) same tt)
  rearmed now (e ∷ es) q same k = (
    record { live = k.live; waiting = k.waiting; single = k.single; sorted = k.sorted },
    subst (λ xs. IsArmed now xs (some (duration_from_now now e.0))) same refl,
  )

  -- `handleRead` in the loop's thread, at any time, with a callback that keeps set and heap
  -- together, returns, and keeps them together: each entry of the set has a live timer of its own,
  -- with the entry's time and not canceled, and the set is in order. If it is not empty the
  -- timerfd is set for its first entry.
  pub handle_timers-IsKept :
      (now now' : ℕ) (q : TimerQueue)
      → IsKept [] q
      → Returns
          (λ r. IsKept [] r × IsArmed now' r.timers r.armed)
          (handle_timers callback true now now' q)
  unfolding handle_timers
  handle_timers-IsKept now now' q k =
      let (taken, due) = taken_out now q k in
      Returns-bind (IsKept []) _
        (fire_all callback now (get_expired now q.timers).0
          (record q { timers = (get_expired now q.timers).1 }))
        _ (fire_all-IsKept now _ _ due taken) (λ r k'. rearmed now' r.timers r refl k')

-- A heap after the timers of these entries were deleted.
abbrev pub IsCleared : List Entry → Heap → Heap → Type 0
IsCleared es h h' = (p : ℕ) → h' p ≡ (if times p es == 0 then h p else none)

IsCleared-next :
    (w p : ℕ) (es : List Entry) (h h' : Heap)
    → times p es ≡ 0
    → IsCleared es (put p none h) h'
    → IsCleared ((w, p) ∷ es) h h'
IsCleared-next w p es h h' z k r = elim (Bool-cases (p == r)) [
  | inl s ↦
      (let same : p ≡ r = (==_iff p r).0 s in
        let none_left : times r es ≡ 0 = sym (ap (λ x. times x es) same) ∙ z in
        let back : (r == p) ≡ true = eq→== r p (sym same) in k r ∙ rw (none_left, back, s) refl)
  | inr s ↦
      (let back : (r == p) ≡ false = ground (arith, s) in
        let kept : 0 + times r es ≡ times r es = omega arith in k r ∙ rw (back, s, kept) refl)
]

delete_all-Returns :
    (es : List Entry) (h : Heap)
    → AllLinked h es
    → ((p : ℕ) → times p es ≤ 1)
    → Returns (IsCleared es h) (delete_all es h)
unfolding delete_all
delete_all-Returns [] h a o = λ p. refl
delete_all-Returns ((w, p) ∷ es) h a o =
    let (t, at_, when, live) = timer_at w (h p) a.0 in
    let z : times p es ≡ 0 = omega (arith, o p, times_self w p es) in
    simp (loaded p t h at_) (
      Returns-map (IsCleared es (put p none h)) _ (delete_all es (put p none h))
        (delete_all-Returns es (put p none h) (AllLinked-put p none h es z a.1)
          (λ r. omega (arith, o r)))
        (λ h'. IsCleared-next w p es h h' z))

-- The destructor of a queue whose set and heap belong together deletes the timer of each entry,
-- once, and no other.
pub destroy_queue-Returns :
    (q : TimerQueue) → IsKept [] q → Returns (IsCleared q.timers q.heap) (destroy_queue q)
unfolding destroy_queue
destroy_queue-Returns q k =
    delete_all-Returns q.timers q.heap k.live (λ p. omega (arith, k.single p))
