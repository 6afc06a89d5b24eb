-- ===== src/TcpServer/Dealing.antt =====
-- TcpServer: from the start of a server on, its connections go to the loops in turn.
use knet_lib.Common.{
  ℕ, zero, suc, ◌<◌, ◌≡◌, refl, sym, ap, ◌∙◌, inl, inr, true, List, [], ◌∷◌, ◌++◌, length, drop,
  drop_all, Bool-cases, leb, lt→ltb, leb→le, Outcome, ok, ◌>>=◌, Returns, Returns-map, append_assoc,
  append-nil, arith,
}
use knet_lib.EventLoopThreadPool
use knet_lib.EventLoopThreadPool.{
  get_all_loops, EventLoopThreadPool, new_pool, start_threads, get_next_loop, next_index, no_loops,
  pick,
}
use knet_lib.EventLoopThreadPool.RoundRobin.{next_loop}
use knet_lib.TcpServer.{
  TcpServer, new_server, to_int, set_num_thread, start, start_in_loop, new_connection,
}

-- Descriptors that arrive one after the other.
unfoldable pub new_connections : List ℕ → TcpServer → Outcome TcpServer
unfolding new_connection
new_connections [] s = ok s
new_connections (fd ∷ fds) s = do s' ← new_connection true fd s; new_connections fds s'

-- The next loop and those that are left of this turn, where `rest` were left of all; the base loop
-- where there are none.
abbrev pub turn : ℕ → List ℕ → List ℕ → ℕ × List ℕ
turn base all (r ∷ rs) = (r, rs)
turn base (l ∷ ls) [] = (l, ls)
turn base [] [] = (base, [])

-- Which loop each descriptor goes to.
unfoldable pub deal : ℕ → List ℕ → List ℕ → List ℕ → List (ℕ × ℕ)
deal base all rest [] = []
deal base all rest (fd ∷ fds) =
    ((turn base all rest).0, fd) ∷ deal base all (turn base all rest).1 fds

-- A turn that is over is followed by the next.
deal-again :
    (base l : ℕ) (ls fds : List ℕ) → deal base (l ∷ ls) [] fds ≡ deal base (l ∷ ls) (l ∷ ls) fds
unfolding deal
deal-again base l ls [] = refl
deal-again base l ls (fd ∷ fds) = refl

deal_over :
    (base : ℕ) (all fds : List ℕ) → 0 < length all → deal base all [] fds ≡ deal base all all fds
deal_over base [] fds h = absurd (omega arith)
deal_over base (l ∷ ls) fds h = deal-again base l ls fds

deal-next_index :
    (base : ℕ) (p : EventLoopThreadPool) (fds : List ℕ)
    → p.next < length p.loops
    → deal base p.loops (drop (suc p.next) p.loops) fds
      ≡ deal base p.loops (drop (next_index p) p.loops) fds
deal-next_index base p fds h = elim (Bool-cases (leb (length p.loops) (suc p.next))) [
  | inl e ↦
      simp (e, drop_all (suc p.next) p.loops (leb→le (length p.loops) (suc p.next) e))
        (deal_over base p.loops fds (omega (arith, h)))
  | inr e ↦ simp e refl
]

next_index-lt : (p : EventLoopThreadPool) → p.next < length p.loops → next_index p < length p.loops
next_index-lt p h = elim (Bool-cases (leb (length p.loops) (suc p.next))) [
  | inl e ↦ rw e (omega (arith, h))
  | inr e ↦ rw e (ground arith)
]

abbrev pub Dealt : List (ℕ × ℕ) → TcpServer → TcpServer → Type 0
Dealt hands s s' = s'.handed ≡ s.handed ++ hands

loops-Dealt :
    (fds : List ℕ) (s : TcpServer)
    → s.pool.started ≡ true
    → s.pool.next < length s.pool.loops
    → Returns
        (Dealt (deal s.pool.base_loop s.pool.loops (drop s.pool.next s.pool.loops) fds) s)
        (new_connections fds s)
unfolding new_connections new_connection deal
loops-Dealt [] s st h = sym (append-nil s.handed)
loops-Dealt (fd ∷ fds) s st h =
    let (loop, e, d, g) = next_loop s.pool st h in
    let p = record s.pool { next = next_index s.pool } in
    let s' = record s { pool = p; handed = s.handed ++ (loop, fd) ∷ [] } in
    simp g (
      Returns-map (Dealt (deal p.base_loop p.loops (drop p.next p.loops) fds) s')
        (Dealt (deal s.pool.base_loop s.pool.loops (drop s.pool.next s.pool.loops) (fd ∷ fds)) s)
        (new_connections fds s') (loops-Dealt fds s' st (next_index-lt s.pool h))
        (λ t k.
          k
          ∙ append_assoc s.handed ((loop, fd) ∷ []) _
          ∙ ap (λ hands. s.handed ++ (loop, fd) ∷ hands)
              (sym (deal-next_index s.pool.base_loop s.pool fds h))
          ∙ simp d refl))

-- Without threads all go to the base loop.
base-Dealt :
    (fds : List ℕ) (s : TcpServer)
    → s.pool.started ≡ true
    → s.pool.loops ≡ []
    → Returns (Dealt (deal s.pool.base_loop [] [] fds) s) (new_connections fds s)
unfolding new_connections new_connection deal get_next_loop
base-Dealt [] s st h = sym (append-nil s.handed)
base-Dealt (fd ∷ fds) s st h =
    let s' = record s { handed = s.handed ++ (s.pool.base_loop, fd) ∷ [] } in
    simp (st, h)
      (Returns-map (Dealt (deal s.pool.base_loop [] [] fds) s')
        (Dealt (deal s.pool.base_loop [] [] (fd ∷ fds)) s) (new_connections fds s')
        (base-Dealt fds s' st h) (λ t k. k ∙ append_assoc s.handed ((s.pool.base_loop, fd) ∷ []) _))

-- From making the server with `n` threads on.
unfoldable pub serve : ℕ → ℕ → (ℕ → ℕ) → List ℕ → Outcome TcpServer
unfolding set_num_thread start
serve base n made fds = do
  s ← set_num_thread n (new_server base)
  s' ← start made s
  new_connections fds s'

-- A server with `m` threads, that is not started.
abbrev not_started : ℕ → ℕ → TcpServer
not_started base m = record (new_server base) { pool = record (new_pool base) { num_threads = m } }

started-Dealt :
    (base m : ℕ) (made : ℕ → ℕ) (fds : List ℕ)
    → Returns
        (λ s. s.handed ≡ deal base (start_threads made 0 m) (start_threads made 0 m) fds)
        (start made (not_started base m) >>= new_connections fds)
unfolding start start_in_loop EventLoopThreadPool.start get_all_loops start_threads
started-Dealt base zero made fds =
    base-Dealt fds
      (record (not_started base 0) {
        started = true;
        has_acceptor = true;
        pool = record (new_pool base) { started = true };
      })
      refl refl
started-Dealt base (suc m) made fds =
    loops-Dealt fds
      (record (not_started base (suc m)) {
        started = true;
        has_acceptor = true;
        pool = record (new_pool base) {
          num_threads = suc m;
          started = true;
          loops = start_threads made 0 (suc m);
        };
      })
      refl (omega arith)

to_int-zero : to_int 0 ≡ 0
unfolding to_int
to_int-zero = refl

pub serve-Dealt :
    (base n : ℕ) (made : ℕ → ℕ) (fds : List ℕ)
    → Returns
        (λ s.
          s.handed
          ≡ deal base (start_threads made 0 (to_int n)) (start_threads made 0 (to_int n)) fds)
        (serve base n made fds)
unfolding serve set_num_thread
serve-Dealt base zero made fds = rw to_int-zero (started-Dealt base 0 made fds)
serve-Dealt base (suc n) made fds =
    simp (lt→ltb 0 (suc n) (omega arith)) (started-Dealt base (to_int (suc n)) made fds)
