-- ===== src/EventLoopThreadPool.antt =====
-- include/knetlib/EventLoopThreadPool.h and src/EventLoopThreadPool.cpp: the loops that a server
-- hands its connections to. A loop is a number; `made i` is the loop of the i-th thread started.
pub mod RoundRobin
mod Tests
use knet_lib.Common.{
  ℕ, zero, suc, ◌+◌, Bool, true, false, not, List, [], ◌∷◌, ◌++◌, Option, none, some, length,
  get_elem?, leb, if◌then◌else◌, Outcome, ok, crash, dangling, check, ◌>>=◌, ◌>>◌,
}

pub record EventLoopThreadPool : Type 0 where
  pub base_loop : ℕ
  pub num_threads : ℕ
  pub next : ℕ
  pub started : Bool
  pub loops : List ℕ

abbrev pub new_pool : ℕ → EventLoopThreadPool
new_pool base = record { base_loop = base; num_threads = 0; next = 0; started = false; loops = [] }

abbrev pub set_thread_num : ℕ → EventLoopThreadPool → EventLoopThreadPool
set_thread_num n p = record p { num_threads = n }

-- The loops of `n` more threads, from the i-th on.
unfoldable pub start_threads : (ℕ → ℕ) → ℕ → ℕ → List ℕ
start_threads made i zero = []
start_threads made i (suc n) = made i ∷ start_threads made (suc i) n

unfoldable pub start : (ℕ → ℕ) → Bool → EventLoopThreadPool → Outcome EventLoopThreadPool
unfolding start_threads
start made here p = do
  check (not p.started)
  check here
  ok (record p { started = true; loops = p.loops ++ start_threads made 0 p.num_threads })

-- The index after a loop was taken.
abbrev pub next_index : EventLoopThreadPool → ℕ
next_index p = if leb (length p.loops) (suc p.next) then 0 else suc p.next

-- An index out of range is the crash `dangling`.
unfoldable pub pick : EventLoopThreadPool → Outcome (ℕ × EventLoopThreadPool)
pick p = elim (get_elem? p.loops p.next) [
  | none ↦ crash dangling
  | some loop ↦ ok (loop, record p { next = next_index p })
]

abbrev pub no_loops : List ℕ → Bool
no_loops [] = true
no_loops (l ∷ ls) = false

unfoldable pub get_next_loop : Bool → EventLoopThreadPool → Outcome (ℕ × EventLoopThreadPool)
unfolding pick
get_next_loop here p = do
  check p.started
  check here
  if no_loops p.loops then ok (p.base_loop, p) else pick p

unfoldable pub get_all_loops : EventLoopThreadPool → Outcome (List ℕ)
get_all_loops p = do check p.started; ok (p.base_loop ∷ p.loops)

-- `n` calls in a row.
unfoldable pub next_loops : ℕ → EventLoopThreadPool → Outcome (List ℕ × EventLoopThreadPool)
unfolding get_next_loop
next_loops zero p = ok ([], p)
next_loops (suc n) p = do
  (loop, p') ← get_next_loop true p
  (rest, q) ← next_loops n p'
  ok (loop ∷ rest, q)
