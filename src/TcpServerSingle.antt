-- ===== src/TcpServerSingle.antt =====
-- include/knetlib/TcpServerSingle.h and src/TcpServerSingle.cpp: the connections that a listener's
-- owner keeps in one loop. A connection is a number, its pointer; `is_open p` says
-- that the state of the connection is not kDisconnected.
pub mod Owned
pub mod Stop
mod Tests
use knet_lib.Common.{
  ℕ, ◌==◌, Bool, true, false, not, ◌||◌, ◌&&◌, List, [], ◌∷◌, Option, none, some, if◌then◌else◌,
  Outcome, ok, crash, fatal, dangling, check, ◌>>=◌, ◌>>◌,
}
use knet_lib.Acceptor.{AcceptResult, accept_one}

pub record TcpServerSingle : Type 0 where
  pub connections : List ℕ
  pub is_open : ℕ → Bool

abbrev pub new_server : TcpServerSingle
new_server = record { connections = []; is_open = λ p. false }

abbrev pub is_member : ℕ → List ℕ → Bool
is_member p [] = false
is_member p (q ∷ qs) = q == p || is_member p qs

abbrev pub set_open : ℕ → Bool → (ℕ → Bool) → ℕ → Bool
set_open p b f q = if q == p then b else f q

-- std::set::erase by key; a key is in a set once.
unfoldable pub erase : ℕ → List ℕ → List ℕ
erase p [] = []
erase p (q ∷ qs) = let rest = erase p qs in if q == p then rest else q ∷ rest

abbrev pub insert : ℕ → List ℕ → List ℕ
insert p ps = if is_member p ps then ps else p ∷ ps

-- `p` is the connection made for the descriptor.
unfoldable pub new_connection : Bool → ℕ → TcpServerSingle → Outcome TcpServerSingle
new_connection here p s = do
  check here
  ok (record { connections = insert p s.connections; is_open = set_open p true s.is_open })

-- The close callback of the connections.
unfoldable pub close_connection : Bool → ℕ → TcpServerSingle → Outcome TcpServerSingle
unfolding erase
close_connection here p s = do
  check here
  if is_member p s.connections
      then ok (record s { connections = erase p s.connections })
      else crash fatal

-- Acceptor::handleRead, with TcpServerSingle::newConnection as its callback; `p` is the connection
-- that is made, if one is.
unfoldable pub handle_accept : AcceptResult → ℕ → Bool → TcpServerSingle → Outcome TcpServerSingle
unfolding new_connection
handle_accept result p here s = do
  arrived ← accept_one result here
  elim arrived [ none ↦ ok s | some fd ↦ new_connection here p s ]

-- TcpConnection::forceClose in the loop's thread, down to the close callback.
unfoldable pub force_close : ℕ → TcpServerSingle → Outcome TcpServerSingle
unfolding close_connection
force_close p s =
    if s.is_open p
    then close_connection true p (record s { is_open = set_open p false s.is_open })
    else ok s

-- The loop of `stop` over the set, from these nodes on: the step to the next node reads the node
-- that it leaves, which must still be in the set.
unfoldable pub stop_from : List ℕ → TcpServerSingle → Outcome TcpServerSingle
unfolding force_close
stop_from [] s = ok s
stop_from (p ∷ ps) s = do
  s' ← force_close p s
  if is_member p s'.connections then stop_from ps s' else crash dangling

unfoldable pub stop : Bool → TcpServerSingle → Outcome TcpServerSingle
unfolding stop_from
stop here s = do check here; stop_from s.connections s

-- The connections that are open.
unfoldable pub open_ones : (ℕ → Bool) → List ℕ → List ℕ
open_ones f [] = []
open_ones f (p ∷ ps) = let rest = open_ones f ps in if f p then p ∷ rest else rest

-- The destructor: the connections whose closing it queues into the loop. In the loop's thread it
-- walks the set as `stop` does; in another `forceClose` only queues.
unfoldable pub destroy_server : Bool → TcpServerSingle → Outcome (List ℕ)
unfolding stop_from open_ones
destroy_server true s = do s' ← stop_from s.connections s; ok []
destroy_server false s = ok (open_ones s.is_open s.connections)
