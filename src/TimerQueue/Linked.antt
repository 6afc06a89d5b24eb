-- ===== src/TimerQueue/Linked.antt =====
-- TimerQueue: the entries of the set and the timers on the heap belong together.
use knet_lib.Common.{
  ℕ, ◌+◌, ◌≤◌, ◌==◌, ◌≡◌, refl, ap, ◌∙◌, Bool, true, false, List, [], ◌∷◌, ◌++◌, Option, none, some,
  Bool-cases, inl, inr, arith, ==_iff, eq→==, &&-false,
}
use knet_lib.TimerQueue.{
  Timer, Entry, before, insert, Heap, put, is_member, same_entry, erase_timer,
}

-- A timer that is not canceled and has the time of its entry.
abbrev pub IsTimerAt : ℕ → Option Timer → Type 0
IsTimerAt when none = ⊥
IsTimerAt when (some t) = (t.when ≡ when) × (t.canceled ≡ false)

-- Each entry has its timer.
abbrev pub AllLinked : Heap → List Entry → Type 0
AllLinked h [] = Unit
AllLinked h (e ∷ es) = IsTimerAt e.0 (h e.1) × AllLinked h es

abbrev pub one_if : Bool → ℕ
one_if true = 1
one_if false = 0

-- How many entries have this pointer.
abbrev pub times : ℕ → List Entry → ℕ
times p [] = 0
times p (e ∷ es) = one_if (e.1 == p) + times p es

pub times_self : (w p : ℕ) (es : List Entry) → times p ((w, p) ∷ es) ≡ 1 + times p es
times_self w p es = rw (eq→== p p refl) refl

pub times-insert_le :
    (p : ℕ) (e : Entry) (es : List Entry) → times p (insert e es) ≤ one_if (e.1 == p) + times p es
unfolding insert
times-insert_le p e [] = omega arith
times-insert_le p e (d ∷ ds) = elim (Bool-cases (before e d)) [
  | inl t ↦ rw t (omega arith)
  | inr t ↦ elim (Bool-cases (before d e)) [
    | inl u ↦ rw (t, u) (omega (arith, times-insert_le p e ds))
    | inr u ↦ rw (t, u) (omega arith)
  ]
]

pub AllLinked-insert :
    (h : Heap) (e : Entry) (es : List Entry)
    → IsTimerAt e.0 (h e.1)
    → AllLinked h es
    → AllLinked h (insert e es)
unfolding insert
AllLinked-insert h e [] i a = (i, tt)
AllLinked-insert h e (d ∷ ds) i a = elim (Bool-cases (before e d)) [
  | inl t ↦ rw t (i, a)
  | inr t ↦ elim (Bool-cases (before d e)) [
    | inl u ↦ rw (t, u) (a.0, AllLinked-insert h e ds i a.1)
    | inr u ↦ rw (t, u) a
  ]
]

-- A change of a timer that no entry has.
pub AllLinked-put :
    (p : ℕ) (t : Option Timer) (h : Heap) (es : List Entry)
    → times p es ≡ 0
    → AllLinked h es
    → AllLinked (put p t h) es
AllLinked-put p t h [] z a = tt
AllLinked-put p t h (e ∷ es) z a = elim (Bool-cases (e.1 == p)) [
  | inl s ↦ absurd (ground (arith, s, z))
  | inr s ↦ (rw s (a.0), AllLinked-put p t h es (ground (arith, s, z)) a.1)
]

-- An entry with the pointer is a timer on the heap.
pub times-none : (p : ℕ) (h : Heap) (es : List Entry) → h p ≡ none → AllLinked h es → times p es ≡ 0
times-none p h [] n a = refl
times-none p h (e ∷ es) n a = elim (Bool-cases (e.1 == p)) [
  | inl s ↦ absurd (unlinked e.0 (h e.1) (ap h ((==_iff e.1 p).0 s) ∙ n) a.0)
  | inr s ↦ rw s (omega (arith, times-none p h es n a.1))
]
  where
    unlinked : (w : ℕ) (o : Option Timer) → o ≡ none → ¬ IsTimerAt w o
    unlinked w none e i = i
    unlinked w (some t) e i = absurd (cc)

pub is_member-times : (w p : ℕ) (es : List Entry) → times p es ≡ 0 → is_member (w, p) es ≡ false
is_member-times w p [] z = refl
is_member-times w p (e ∷ es) z =
    let other : (e.1 == p) ≡ false = ground (arith, z) in
    let rest : times p es ≡ 0 = omega (arith, z) in
    rw (same_entry, other, &&-false (e.0 == w)) (is_member-times w p es rest)

pub times-erase_timer : (p r : ℕ) (es : List Entry) → times r (erase_timer p es) ≤ times r es
unfolding erase_timer
times-erase_timer p r [] = omega arith
times-erase_timer p r (e ∷ es) = elim (Bool-cases (e.1 == p)) [
  | inl s ↦ rw s (omega arith)
  | inr s ↦ rw s (omega (arith, times-erase_timer p r es))
]

-- Where at most one entry has the pointer, none has it after that.
pub times-erased : (p : ℕ) (es : List Entry) → times p es ≤ 1 → times p (erase_timer p es) ≡ 0
unfolding erase_timer
times-erased p [] h = refl
times-erased p (e ∷ es) h = elim (Bool-cases (e.1 == p)) [
  | inl s ↦ rw s (ground (arith, s, h))
  | inr s ↦ rw s (ground (arith, s, h, times-erased p es))
]

pub AllLinked-erase_timer :
    (p : ℕ) (h : Heap) (es : List Entry) → AllLinked h es → AllLinked h (erase_timer p es)
unfolding erase_timer
AllLinked-erase_timer p h [] a = tt
AllLinked-erase_timer p h (e ∷ es) a = elim (Bool-cases (e.1 == p)) [
  | inl s ↦ rw s (a.1)
  | inr s ↦ rw s (a.0, AllLinked-erase_timer p h es a.1)
]

pub AllLinked-append :
    (h : Heap) (xs ys : List Entry) → AllLinked h (xs ++ ys) → AllLinked h xs × AllLinked h ys
AllLinked-append h [] ys a = (tt, a)
AllLinked-append h (x ∷ xs) ys a = let (l, r) = AllLinked-append h xs ys a.1 in ((a.0, l), r)

pub times-append : (p : ℕ) (xs ys : List Entry) → times p (xs ++ ys) ≡ times p xs + times p ys
times-append p [] ys = omega arith
times-append p (x ∷ xs) ys = omega (arith, times-append p xs ys)
