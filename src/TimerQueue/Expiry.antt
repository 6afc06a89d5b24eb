-- ===== src/TimerQueue/Expiry.antt =====
-- TimerQueue: the set is kept in order, an expiry takes what is due and no more, and the timerfd
-- is never set to zero, which would disarm it.
use knet_lib.Common.{
  ℕ, ◌+◌, ◌-◌, ◌*◌, ◌≤◌, ◌<◌, ◌==◌, ◌≡◌, refl, ap, ap₂, max, true, false, List, [], ◌∷◌, ◌++◌,
  Bool-cases, inl, inr, arith,
}
use knet_lib.TimerQueue.{
  Entry, before, insert, get_expired, erase_timer, one_ms, nano_den, duration_from_now,
}

-- The time that the timerfd is set to is the time left, but never under one millisecond, so that
-- it is never disarmed, and its nanoseconds are under a second.
pub duration_from_now_lem :
    (now when : ℕ)
    → (let d = duration_from_now now when in
        (d.0 * nano_den + d.1 ≡ max (when - now) one_ms) × (d.1 < nano_den))
unfolding duration_from_now
duration_from_now_lem now when = ground arith

-- Entries in strict order.
abbrev pub IsSorted : List Entry → Type 0
IsSorted [] = Unit
IsSorted (e ∷ []) = Unit
IsSorted (d ∷ e ∷ es) = (before d e ≡ true) × IsSorted (e ∷ es)

IsSorted-tail : (e : Entry) (es : List Entry) → IsSorted (e ∷ es) → IsSorted es
IsSorted-tail e [] h = tt
IsSorted-tail e (d ∷ es) h = h.1

before_trans : (a b c : Entry) → before a b ≡ true → before b c ≡ true → before a c ≡ true
before_trans (t, p) (u, q) (v, r) h k = ground arith

before-cases : (d e : Entry) → before d e ≡ false → before e d ≡ false → d ≡ e
before-cases (t, p) (u, q) h k = ap₂ (λ a b. (a, b)) (ground arith) (ground arith)

-- An entry in front of a list.
abbrev Heads : Entry → List Entry → Type 0
Heads d [] = Unit
Heads d (e ∷ es) = before d e ≡ true

IsSorted-cons : (d : Entry) (es : List Entry) → Heads d es → IsSorted es → IsSorted (d ∷ es)
IsSorted-cons d [] h s = tt
IsSorted-cons d (e ∷ es) h s = (h, s)

insert-Heads :
    (d e : Entry) (es : List Entry) → before d e ≡ true → Heads d es → Heads d (insert e es)
unfolding insert
insert-Heads d e [] h k = h
insert-Heads d e (c ∷ cs) h k = elim (Bool-cases (before e c)) [
  | inl t ↦ rw t h
  | inr t ↦ rw t (elim (Bool-cases (before c e)) [ inl u ↦ rw u k | inr u ↦ rw u k ])
]

Heads-of : (d : Entry) (es : List Entry) → IsSorted (d ∷ es) → Heads d es
Heads-of d [] h = tt
Heads-of d (e ∷ es) h = h.0

-- Inserting an entry keeps the set of timers in order.
pub insert-IsSorted : (e : Entry) (es : List Entry) → IsSorted es → IsSorted (insert e es)
unfolding insert
insert-IsSorted e [] h = tt
insert-IsSorted e (d ∷ ds) h = elim (Bool-cases (before e d)) [
  | inl t ↦ rw t (t, h)
  | inr t ↦ rw t (elim (Bool-cases (before d e)) [
    | inl u ↦ rw u (
        IsSorted-cons d (insert e ds) (insert-Heads d e ds u (Heads-of d ds h))
          (insert-IsSorted e ds (IsSorted-tail d ds h)))
    | inr u ↦ rw u h
  ])
]

Heads-later : (d e : Entry) (es : List Entry) → before d e ≡ true → IsSorted (e ∷ es) → Heads d es
Heads-later d e [] h s = tt
Heads-later d e (c ∷ cs) h s = before_trans d e c h s.0

erase_timer-Heads :
    (p : ℕ) (d : Entry) (es : List Entry) → Heads d es → IsSorted es → Heads d (erase_timer p es)
unfolding erase_timer
erase_timer-Heads p d [] h s = tt
erase_timer-Heads p d (e ∷ es) h s = elim (Bool-cases (e.1 == p)) [
  | inl t ↦ rw t (Heads-later d e es h s)
  | inr t ↦ rw t h
]

-- Erasing a timer keeps the set in order.
pub erase_timer-IsSorted : (p : ℕ) (es : List Entry) → IsSorted es → IsSorted (erase_timer p es)
unfolding erase_timer
erase_timer-IsSorted p [] s = tt
erase_timer-IsSorted p (e ∷ es) s = elim (Bool-cases (e.1 == p)) [
  | inl t ↦ rw t (IsSorted-tail e es s)
  | inr t ↦ rw t (
      IsSorted-cons e (erase_timer p es)
        (erase_timer-Heads p e es (Heads-of e es s) (IsSorted-tail e es s))
        (erase_timer-IsSorted p es (IsSorted-tail e es s)))
]

-- Entries that are due, or not.
abbrev pub AllDue : ℕ → List Entry → Type 0
AllDue now [] = Unit
AllDue now (e ∷ es) = (e.0 ≤ now) × AllDue now es

abbrev pub NoneDue : ℕ → List Entry → Type 0
NoneDue now [] = Unit
NoneDue now (e ∷ es) = (now < e.0) × NoneDue now es

later :
    (now : ℕ) (e : Entry) (es : List Entry) → now < e.0 → IsSorted (e ∷ es) → NoneDue now (e ∷ es)
later now e [] h s = (h, tt)
later now (t, p) ((u, q) ∷ es) h s = (h, later now (u, q) es (ground (arith, s.0)) s.1)

due : (now t p : ℕ) → before (t, p) (now + 1, 0) ≡ true → t ≤ now
due now t p h = ground arith

not_due : (now t p : ℕ) → before (t, p) (now + 1, 0) ≡ false → now < t
not_due now t p h = ground arith

-- `getExpired` of an ordered set takes entries off its front, of which all are due, and leaves
-- none that is due; what is left is in order.
pub get_expired_lem :
    (now : ℕ) (es : List Entry)
    → IsSorted es
    → (let (expired, rest) = get_expired now es in
        (expired ++ rest ≡ es) × AllDue now expired × NoneDue now rest × IsSorted rest)
unfolding get_expired
get_expired_lem now [] s = (refl, tt, tt, tt)
get_expired_lem now (e ∷ es) s =
    let (whole, all_due, none_due, sorted) = get_expired_lem now es (IsSorted-tail e es s) in
    elim (Bool-cases (before e (now + 1, 0))) [
      | inl t ↦ rw t (ap (◌∷◌ e) whole, (due now e.0 e.1 t, all_due), none_due, sorted)
      | inr t ↦ rw t (refl, tt, later now e es (not_due now e.0 e.1 t) s, s)
    ]
