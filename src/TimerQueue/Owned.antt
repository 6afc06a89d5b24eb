-- ===== src/TimerQueue/Owned.antt =====
-- TimerQueue: no timer is lost: each that lives has an entry.
use knet_lib.Common.{
  ℕ, ◌+◌, ◌≤◌, ◌≡◌, ◌==◌, refl, ap, false, List, [], ◌∷◌, Option, none, some, Bool-cases, inl, inr,
  ==_iff, eq→==, Outcome, ok, crash, Returns, arith,
}
use knet_lib.TimerQueue.{
  Timer, Entry, Heap, put, TimerQueue, new_timer, insert, before, is_first, erase_timer, add_timer,
  add_in_loop, cancel_timer,
}
use knet_lib.TimerQueue.Linked.{times, times-none, is_member-times}
use knet_lib.TimerQueue.Dangling.{canceled_once}
use knet_lib.TimerQueue.Kept.{IsKept}

-- An address that no entry has, in the set or taken out, holds no timer.
abbrev pub IsOwned : List Entry → List Entry → Heap → Type 0
IsOwned pending timers heap = (p : ℕ) → times p timers + times p pending ≡ 0 → heap p ≡ none

times-insert_ge : (p : ℕ) (e : Entry) (es : List Entry) → times p es ≤ times p (insert e es)
unfolding insert
times-insert_ge p e [] = omega arith
times-insert_ge p e (d ∷ ds) = elim (Bool-cases (before e d)) [
  | inl t ↦ rw t (omega arith)
  | inr t ↦ elim (Bool-cases (before d e)) [
    | inl u ↦ rw (t, u) (omega (arith, times-insert_ge p e ds))
    | inr u ↦ rw (t, u) (omega arith)
  ]
]

put-other : (p r : ℕ) (t : Option Timer) (h : Heap) → (r == p) ≡ false → put p t h r ≡ h r
put-other p r t h e = rw e refl

times-inserted : (e : Entry) (es : List Entry) → 1 ≤ times e.1 (insert e es)
unfolding insert
times-inserted e [] = rw (eq→== e.1 e.1 refl) (omega arith)
times-inserted e (d ∷ ds) = elim (Bool-cases (before e d)) [
  | inl t ↦ rw (t, eq→== e.1 e.1 refl) (omega arith)
  | inr t ↦ elim (Bool-cases (before d e)) [
    | inl u ↦ rw (t, u) (omega (arith, times-inserted e ds))
    | inr u ↦
        let same : d.1 ≡ e.1 = ground (arith, t, u) in rw (t, u, eq→== d.1 e.1 same) (omega arith)
  ]
]

-- A timer that gets an entry.
pub entered-IsOwned :
    (pending timers : List Entry) (when p : ℕ) (t : Option Timer) (heap : Heap)
    → ((r : ℕ) → (r == p) ≡ false → times r timers + times r pending ≡ 0 → heap r ≡ none)
    → IsOwned pending (insert (when, p) timers) (put p t heap)
entered-IsOwned pending timers when p t heap rest r z = elim (Bool-cases (r == p)) [
  | inl e ↦
      let same : r ≡ p = (==_iff r p).0 e in
      absurd (
        omega (
          arith,
          z,
          times-inserted (when, p) timers,
          ap (λ x. times x (insert (when, p) timers)) same,
        ))
  | inr e ↦ rw e (rest r e (omega (arith, z, times-insert_ge r (when, p) timers)))
]

-- A timer that is deleted.
pub deleted-IsOwned :
    (pending timers : List Entry) (p : ℕ) (heap : Heap)
    → ((r : ℕ) → (r == p) ≡ false → times r timers + times r pending ≡ 0 → heap r ≡ none)
    → IsOwned pending timers (put p none heap)
deleted-IsOwned pending timers p heap rest r z = elim (Bool-cases (r == p)) [
  | inl e ↦ rw e refl
  | inr e ↦ rw e (rest r e z)
]

-- Set and heap belong together, and no timer is lost.
abbrev pub Tidy : List Entry → TimerQueue → Type 0
Tidy pending q = IsKept pending q × IsOwned pending q.timers q.heap

abbrev pub IsTidy : (ℕ → TimerQueue → Outcome TimerQueue) → Type 0
IsTidy callback =
    (p : ℕ) (pending : List Entry) (q : TimerQueue)
    → Tidy pending q
    → Returns (Tidy pending) (callback p q)

pub Returns-both :
    {A : Type 0} (P Q : A → Type 0) (m : Outcome A)
    → Returns P m
    → Returns Q m
    → Returns (λ a. P a × Q a) m
Returns-both P Q (ok a) p q = (p, q)
Returns-both P Q (crash e) p q = absurd p

-- Without its first entry, only the timer of that may be left.
pub but_first :
    (e : Entry) (es : List Entry) (q : TimerQueue)
    → IsOwned (e ∷ es) q.timers q.heap
    → (r : ℕ) → (r == e.1) ≡ false
    → times r q.timers + times r es ≡ 0
    → q.heap r ≡ none
but_first e es q o r other z =
    let back : (e.1 == r) ≡ false = ground (arith, other) in o r (rw back (omega (arith, z)))

pub add_timer-IsOwned :
    (now p when interval : ℕ) (q : TimerQueue)
    → Tidy [] q
    → q.heap p ≡ none
    → Returns (λ r. IsOwned [] r.timers r.heap) (add_timer now p when interval q)
unfolding add_timer add_in_loop
add_timer-IsOwned now p when interval q (k, o) free =
    let owned =
      entered-IsOwned [] q.timers when p (some (new_timer when interval)) q.heap (λ r e z. o r z) in
    rw (is_member-times when p q.timers (times-none p q.heap q.timers free k.live))
      (elim (Bool-cases (is_first (when, p) (insert (when, p) q.timers))) [
        | inl f ↦ rw f owned
        | inr f ↦ rw f owned
      ])

times-erase_other :
    (p r : ℕ) (es : List Entry) → (r == p) ≡ false → times r es ≤ times r (erase_timer p es)
unfolding erase_timer
times-erase_other p r [] other = omega arith
times-erase_other p r (e ∷ es) other = elim (Bool-cases (e.1 == p)) [
  | inl s ↦ let apart : (e.1 == r) ≡ false = ground (arith, s, other) in rw (s, apart) (omega arith)
  | inr s ↦ rw s (omega (arith, times-erase_other p r es other))
]

pub cancel_timer-IsOwned :
    (p : ℕ) (t : Timer) (q : TimerQueue)
    → IsOwned [] q.timers q.heap
    → q.heap p ≡ some t
    → t.canceled ≡ false
    → Returns (λ r. IsOwned [] r.timers r.heap) (cancel_timer p q)
cancel_timer-IsOwned p t q o e live = rw (canceled_once p t q e live) (
    deleted-IsOwned [] (erase_timer p q.timers) p q.heap
      (λ r other z. o r (omega (arith, z, times-erase_other p r q.timers other))))
