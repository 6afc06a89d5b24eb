-- ===== src/TimerQueue.antt =====
-- include/knetlib/Timer.h, include/knetlib/TimerQueue.h and src/TimerQueue.cpp: the timers of one
-- loop. A time is a number of nanoseconds, and the 64 bits of std::chrono are taken to suffice. A
-- `Timer*` is a number, the heap says which objects live, and the use of a deleted one is the crash
-- `dangling`. The calls of `runInLoop` are those of the loop's own thread, which run at once.
pub mod Expiry
pub mod Dangling
pub mod Linked
pub mod Kept
pub mod Settled
pub mod Armed
pub mod Owned
pub mod Tidied
pub mod Sequence
mod Tests
use knet_lib.Common.{
  ℕ, ◌+◌, ◌-◌, ◌*◌, ◌/◌, ◌%◌, ◌==◌, max, Bool, true, false, not, ◌&&◌, ◌||◌, List, [], ◌∷◌, ◌++◌,
  Option, none, some, ltb, leb, if◌then◌else◌, Outcome, ok, crash, dangling, check, ◌>>=◌, ◌>>◌,
}

-- The callback is given by the timer's pointer, to `handle_timers`.
pub record Timer : Type 0 where
  pub when : ℕ
  pub interval : ℕ
  pub repeat : Bool
  pub canceled : Bool

abbrev pub new_timer : ℕ → ℕ → Timer
new_timer when interval = record {
  when = when;
  interval = interval;
  repeat = ltb 0 interval;
  canceled = false;
}

abbrev pub has_expired : ℕ → Timer → Bool
has_expired now t = leb t.when now

unfoldable pub restart : Timer → Outcome Timer
restart t = do check t.repeat; ok (record t { when = t.when + t.interval })

unfoldable pub cancel : Timer → Outcome Timer
cancel t = do check (not t.canceled); ok (record t { canceled = true })

abbrev pub Entry : Type 0
Entry = ℕ × ℕ

-- The order of std::pair.
abbrev pub before : Entry → Entry → Bool
before d e = ltb d.0 e.0 || ((d.0 == e.0) && ltb d.1 e.1)

-- std::set::insert: nothing changes where the entry is there.
unfoldable pub insert : Entry → List Entry → List Entry
insert e [] = e ∷ []
insert e (d ∷ ds) =
    let rest = insert e ds in
    if before e d then e ∷ d ∷ ds else if before d e then d ∷ rest else d ∷ ds

abbrev pub same_entry : Entry → Entry → Bool
same_entry d e = (d.0 == e.0) && (d.1 == e.1)

abbrev pub is_member : Entry → List Entry → Bool
is_member e [] = false
is_member e (d ∷ ds) = same_entry d e || is_member e ds

-- Whether `begin()` is the entry.
abbrev pub is_first : Entry → List Entry → Bool
is_first e [] = false
is_first e (d ∷ ds) = same_entry d e

abbrev pub Heap : Type 0
Heap = ℕ → Option Timer

abbrev pub put : ℕ → Option Timer → Heap → Heap
put p t h q = if q == p then t else h q

-- A timer behind a pointer.
abbrev pub load_timer : ℕ → Heap → Outcome Timer
load_timer p h = elim (h p) [ none ↦ crash dangling | some t ↦ ok t ]

-- tv_sec and tv_nsec.
abbrev pub Timespec : Type 0
Timespec = ℕ × ℕ

abbrev pub nano_den : ℕ
nano_den = 1000000000

abbrev pub one_ms : ℕ
one_ms = 1000000

-- A time that has passed counts as one millisecond from now.
unfoldable pub duration_from_now : ℕ → ℕ → Timespec
duration_from_now now when =
    let ns = if ltb (when - now) one_ms then one_ms else when - now in
    (ns / nano_den, ns % nano_den)

-- `armed` is what the timerfd was last set to.
pub record TimerQueue : Type 0 where
  pub timers : List Entry
  pub heap : Heap
  pub armed : Option Timespec

-- The rest of `addTimer`, once the timer is made.
unfoldable pub add_in_loop : ℕ → ℕ → ℕ → TimerQueue → Outcome TimerQueue
add_in_loop now when p q = do
  check (not (is_member (when, p) q.timers))
  let q' = record q { timers = insert (when, p) q.timers }
  ok (
      if is_first (when, p) q'.timers
      then record q' { armed = some (duration_from_now now when) }
      else q')

-- `p` is the address that `new` gives.
unfoldable pub add_timer : ℕ → ℕ → ℕ → ℕ → TimerQueue → Outcome TimerQueue
unfolding add_in_loop
add_timer now p when interval q =
    add_in_loop now when p (record q { heap = put p (some (new_timer when interval)) q.heap })

-- The first entry of the timer is taken out.
unfoldable pub erase_timer : ℕ → List Entry → List Entry
erase_timer p [] = []
erase_timer p (e ∷ es) = let rest = erase_timer p es in if e.1 == p then es else e ∷ rest

unfoldable pub cancel_timer : ℕ → TimerQueue → Outcome TimerQueue
unfolding cancel erase_timer
cancel_timer p q = do
  t ← load_timer p q.heap
  t' ← cancel t
  ok (record q { timers = erase_timer p q.timers; heap = put p none q.heap })

-- `lower_bound` of the instant after `now`, with the least pointer.
unfoldable pub get_expired : ℕ → List Entry → List Entry × List Entry
get_expired now [] = ([], [])
get_expired now (e ∷ es) =
    let (expired, rest) = get_expired now es in
    if before e (now + 1, 0) then (e ∷ expired, rest) else ([], e ∷ es)

-- The destructor deletes the timer of each entry; what is left of the heap.
unfoldable pub delete_all : List Entry → Heap → Outcome Heap
delete_all [] h = ok h
delete_all (e ∷ es) h = load_timer e.1 h >>= λ t. delete_all es (put e.1 none h)

unfoldable pub destroy_queue : TimerQueue → Outcome Heap
unfolding delete_all
destroy_queue q = delete_all q.timers q.heap

-- `callback p` is what the timer at `p` calls.
module _ (callback : ℕ → TimerQueue → Outcome TimerQueue) where
  -- What becomes of a timer after its run.
  unfoldable pub settle : ℕ → TimerQueue → Outcome TimerQueue
  unfolding restart insert
  settle p q = do
    t ← load_timer p q.heap
    if not t.canceled && t.repeat
        then (do
          t' ← restart t
          ok (record q { timers = insert (t'.when, p) q.timers; heap = put p (some t') q.heap }))
        else ok (record q { heap = put p none q.heap })

  -- The body of the loop over the expired entries.
  unfoldable pub fire : ℕ → ℕ → TimerQueue → Outcome TimerQueue
  unfolding settle
  fire now p q = do
    t ← load_timer p q.heap
    check (has_expired now t)
    q' ← (if not t.canceled then callback p q else ok q)
    settle p q'

  unfoldable pub fire_all : ℕ → List Entry → TimerQueue → Outcome TimerQueue
  unfolding fire
  fire_all now [] q = ok q
  fire_all now (e ∷ es) q = fire now e.1 q >>= fire_all now es

  -- The two readings of the clock are `now` and `now'`.
  unfoldable pub handle_timers : Bool → ℕ → ℕ → TimerQueue → Outcome TimerQueue
  unfolding get_expired fire_all
  handle_timers here now now' q = do
    check here
    let (expired, rest) = get_expired now q.timers
    q' ← fire_all now expired (record q { timers = rest })
    ok (elim q'.timers [
      | [] ↦ q'
      | e ∷ es ↦ record q' { armed = some (duration_from_now now' e.0) }
    ])
