-- ===== src/EventLoopThreadPool/RoundRobin.antt =====
-- EventLoopThreadPool: the index stays in range, and the loops take turns.
use knet_lib.Common.{
  ℕ, zero, suc, ◌+◌, ◌-◌, ◌<◌, ◌≡◌, refl, sym, ap, ap₂, ◌∙◌, true, false, List, [], ◌∷◌, some,
  length, drop, drop_all, get_elem?, leb, ◌⊎◌, ok, Returns, length-append, arith,
}
use knet_lib.EventLoopThreadPool.{
  EventLoopThreadPool, start_threads, start, pick, no_loops, get_next_loop, next_loops, next_index,
}

-- The index is in range, or there are no threads.
abbrev pub IsInRange : EventLoopThreadPool → Type 0
IsInRange p = (p.loops ≡ []) ⊎ (p.next < length p.loops)

length-start_threads : (made : ℕ → ℕ) (i n : ℕ) → length (start_threads made i n) ≡ n
unfolding start_threads
length-start_threads made i zero = refl
length-start_threads made i (suc n) = ap suc (length-start_threads made (suc i) n)

get_elem?-drop :
    (i : ℕ) (xs : List ℕ)
    → i < length xs
    → (x : ℕ) × (get_elem? xs i ≡ some x) × (drop i xs ≡ x ∷ drop (suc i) xs)
get_elem?-drop i [] h = absurd (omega arith)
get_elem?-drop zero (x ∷ xs) h = (x, refl, refl)
get_elem?-drop (suc i) (x ∷ xs) h = get_elem?-drop i xs (omega arith)

some_loops : (ls : List ℕ) (i : ℕ) → i < length ls → no_loops ls ≡ false
some_loops [] i h = absurd (omega arith)
some_loops (l ∷ ls) i h = refl

picked :
    (p : EventLoopThreadPool) (loop : ℕ)
    → get_elem? p.loops p.next ≡ some loop
    → pick p ≡ ok (loop, record p { next = next_index p })
unfolding pick
picked p loop e = rw (e, pick) refl

-- The next loop of a started pool whose index is in range.
pub next_loop :
    (p : EventLoopThreadPool)
    → p.started ≡ true
    → p.next < length p.loops
    → (loop : ℕ) × (get_elem? p.loops p.next ≡ some loop)
      × (drop p.next p.loops ≡ loop ∷ drop (suc p.next) p.loops)
      × (get_next_loop true p ≡ ok (loop, record p { next = next_index p }))
unfolding get_next_loop
next_loop p s h =
    let (loop, e, d) = get_elem?-drop p.next p.loops h in
    (loop, e, d, simp (s, some_loops p.loops p.next h, picked p loop e) refl)

-- The loops from the index to the last take their turns, and the index is 0 again.
rest_of_round :
    (n : ℕ) (p : EventLoopThreadPool)
    → p.started ≡ true
    → p.next + suc n ≡ length p.loops
    → next_loops (suc n) p ≡ ok (drop p.next p.loops, record p { next = 0 })
unfolding next_loops
rest_of_round zero p s h =
    let (loop, e, d, g) = next_loop p s (omega arith) in
    let back : leb (length p.loops) (suc p.next) ≡ true = ground arith in
    simp (g, back, d, drop_all (suc p.next) p.loops (omega arith)) refl
rest_of_round (suc n) p s h =
    let (loop, e, d, g) = next_loop p s (omega arith) in
    let on : leb (length p.loops) (suc p.next) ≡ false = ground arith in
    let ih = rest_of_round n (record p { next = suc p.next }) s (omega arith) in
    simp (g, on, ih, d) refl

-- As many calls of `getNextLoop` as there are threads, from index 0 on, give each loop once, in
-- order, and end at index 0 again.
pub full_round :
    (p : EventLoopThreadPool)
    → p.started ≡ true
    → p.next ≡ 0
    → 0 < length p.loops
    → next_loops (length p.loops) p ≡ ok (p.loops, p)
full_round p s z pos =
    let size : length p.loops ≡ suc (length p.loops - 1) = omega (arith, pos) in
    ap (λ n. next_loops n p) size
    ∙ rest_of_round (length p.loops - 1) p s (omega (arith, z, pos))
    ∙ ap₂ (λ (a b : ℕ). ok (drop a p.loops, record p { next = b })) z (sym z)

-- `start` of a pool that was not started adds as many loops as threads were asked for and leaves
-- the index.
start_lem :
    (made : ℕ → ℕ) (p : EventLoopThreadPool)
    → p.started ≡ false
    → Returns
        (λ q.
          (q.started ≡ true)
          × (q.next ≡ p.next)
          × (length q.loops ≡ length p.loops + p.num_threads))
        (start made true p)
unfolding start
start_lem made p s = simp s (
  refl,
  refl,
  omega (
    arith,
    length-append p.loops (start_threads made 0 p.num_threads),
    length-start_threads made 0 p.num_threads,
  ),
)
