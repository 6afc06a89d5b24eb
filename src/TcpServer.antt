-- ===== src/TcpServer.antt =====
-- include/knetlib/TcpServer.h and src/TcpServer.cpp: a listener in the base loop that hands its
-- connections to the loops of a pool. A hand-over is the loop and the descriptor; the task that it
-- queues there is `establish`.
pub mod Lifetime
pub mod Dealing
mod Tests
use knet_lib.Common.{
  ℕ, zero, suc, ◌+◌, ◌-◌, ◌%◌, ◌^◌, ◌==◌, Bool, true, false, not, List, [], ◌∷◌, ◌++◌, ltb, Option,
  none, some, if◌then◌else◌, Outcome, ok, crash, check, ◌>>=◌, ◌>>◌,
}
use knet_lib.Buffer.{Buffer}
use knet_lib.Epoll.{Kernel}
use knet_lib.EventLoopThreadPool
use knet_lib.EventLoopThreadPool.{
  EventLoopThreadPool, new_pool, set_thread_num, get_next_loop, get_all_loops,
}
use knet_lib.TcpConnection.{Conn, new_conn, connect_established}
use knet_lib.TcpServerSingle

-- `inits` are the calls of the thread callback, each with its loop, and `handed` the connections
-- that were handed over.
pub record TcpServer : Type 0 where
  pub started : Bool
  pub has_acceptor : Bool
  pub has_init_callback : Bool
  pub pool : EventLoopThreadPool
  pub inits : List (ℕ × ℕ)
  pub handed : List (ℕ × ℕ)

abbrev pub new_server : ℕ → TcpServer
new_server base = record {
  started = false;
  has_acceptor = false;
  has_init_callback = false;
  pool = new_pool base;
  inits = [];
  handed = [];
}

-- `static_cast<int>(n)`: the low 32 bits, read with their sign. A negative number of threads starts
-- none, as 0 does, and stands as 0.
unfoldable pub to_int : ℕ → ℕ
to_int n = if ltb (n % 2 ^ 32) (2 ^ 31) then n % 2 ^ 32 else 0

unfoldable pub set_num_thread : ℕ → TcpServer → Outcome TcpServer
set_num_thread n s = do
  check (not s.started)
  ok (if ltb 0 n then record s { pool = set_thread_num (to_int n) s.pool } else s)

-- The loops with the numbers of their threads, from `i` on.
abbrev pub numbered : ℕ → List ℕ → List (ℕ × ℕ)
numbered i [] = []
numbered i (l ∷ ls) = (l, i) ∷ numbered (suc i) ls

-- `made` gives the loops of the threads.
unfoldable pub start_in_loop : (ℕ → ℕ) → Bool → TcpServer → Outcome TcpServer
start_in_loop made here s = do
  check here
  check (not s.has_acceptor)
  pool ← EventLoopThreadPool.start made here s.pool
  all ← get_all_loops pool
  ok (record s {
    pool = pool;
    inits = if s.has_init_callback then s.inits ++ numbered 0 all else s.inits;
    has_acceptor = true;
  })

-- In the base loop's thread, where `runInLoop` runs at once.
unfoldable pub start : (ℕ → ℕ) → TcpServer → Outcome TcpServer
unfolding start_in_loop
start made s = if s.started then ok s else start_in_loop made true (record s { started = true })

unfoldable pub new_connection : Bool → ℕ → TcpServer → Outcome TcpServer
new_connection here fd s = do
  check here
  (loop, pool) ← get_next_loop here s.pool
  ok (record s { pool = pool; handed = s.handed ++ (loop, fd) ∷ [] })

-- The destructor; says whether it left a closure to the base loop, which it does in another thread.
-- The listener's own set has no connections, as the server takes them all over.
unfoldable pub destroy : Bool → TcpServer → Outcome Bool
destroy here s =
    if s.has_acceptor
    then (if here
        then (do t ← TcpServerSingle.stop true TcpServerSingle.new_server; ok false)
        else ok true)
    else ok false

-- The control block of a shared pointer: how many shared and weak pointers there are to the object.
pub record Pointers : Type 0 where
  pub shared : ℕ
  pub weak : ℕ

-- `make_shared`.
abbrev pub made_shared : Pointers
made_shared = record { shared = 1; weak = 0 }

-- One more shared pointer, by a copy or by `shared_from_this`, and one less.
abbrev pub shared_again : Pointers → Pointers
shared_again p = record p { shared = suc p.shared }

abbrev pub released : Pointers → Pointers
released p = record p { shared = p.shared - 1 }

-- Channel::tie: the member that it assigns to is a weak pointer.
unfoldable pub tie_pointer : Pointers → Pointers
tie_pointer p = record p { weak = suc p.weak }

-- `connectEstablished` ties the channel to `shared_from_this()`, which is gone after the call.
unfoldable pub tied_pointers : Pointers → Pointers
unfolding tie_pointer
tied_pointers p = released (tie_pointer (shared_again p))

-- A callback that is given the pointer copies it so many times and keeps the copies.
unfoldable pub kept_by : ℕ → Pointers → Pointers
kept_by zero p = p
kept_by (suc n) p = kept_by n (shared_again p)

module _ (kernel : Kernel) where
  -- A connection while some shared pointer holds it; its destructor, when the last is gone, closes
  -- the descriptor.
  pub data Life : Type 0 where
    held : Pointers → Conn kernel → Life
    closed : ℕ → Life

  abbrev pub life : Pointers → Conn kernel → Life
  life p c = if p.shared == 0 then closed c.channel.fd else held p c

  -- The task in the connection's loop. The callbacks of the connection capture the server alone.
  -- `keeps c` is how many pointers the connection callback keeps. `conn` goes away at the end.
  unfoldable pub establish :
      (Conn kernel → ℕ) → ℕ → Buffer → Buffer → kernel.Interest → Outcome Life
  unfolding tied_pointers kept_by
  establish keeps fd input output k = do
    c ← connect_established kernel true (new_conn kernel fd input output k)
    let after_tie = tied_pointers made_shared
    let after_callback = kept_by (keeps c) after_tie
    ok (life (released after_callback) c)

  -- The close callback of the connections, which leaves the rest to the connection.
  unfoldable pub close_connection :
      Option (Conn kernel → Outcome (Conn kernel)) → Conn kernel → Outcome (Conn kernel)
  close_connection callback c = elim callback [ none ↦ ok c | some f ↦ f c ]
