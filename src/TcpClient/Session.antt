-- ===== src/TcpClient/Session.antt =====
-- TcpClient: the client with its connection, from its making to `disconnect` and the close. The
-- retry timer and the connector stay aside.
pub mod Flushed
use knet_lib.Common.{
  ℕ, zero, suc, ◌≤◌, ◌<◌, ◌≡◌, refl, sym, ap, ◌∙◌, Bool, true, false, Option, none, some, length,
  List, [], not, ◌&&◌, Bool-cases, inl, inr, if◌then◌else◌, Outcome, ok, check, ◌>>=◌, ◌>>◌,
  Returns, Returns-bind, Returns-map, subst, arith,
}
use knet_lib.Sys.{WriteResult}
use knet_lib.Buffer.{Buffer, contents}
use knet_lib.Channel.{is_writing}
use knet_lib.Epoll.{Kernel, IsEpoll}
use knet_lib.TcpConnection.{
  State, Conn, Handlers, connected, disconnecting, is_connected, is_disconnected, is_disconnecting,
  new_conn, connect_established, shutdown, shutdown_in_loop,
}
use knet_lib.TcpConnection.Sound.{IsSound, stream}
use knet_lib.TcpConnection.Stream.Emptied.{
  IsGiving, IsShutWhenEmpty, Emptied, rounds, rounds-Emptied,
}

module _ (kernel : Kernel) where
  -- `queued` is how often `disconnect` waits in the loop.
  pub record Session : Type 0 where
    pub connected_flag : Bool
    pub connection : Option (Conn kernel)
    pub queued : ℕ

  abbrev pub with_connection : (Conn kernel → Outcome (Conn kernel)) → Session → Outcome Session
  with_connection f s = elim s.connection [
    | none ↦ ok s
    | some c ↦ do c' ← f c; ok (record s { connection = some c' })
  ]

  -- The part of the connector's callback that makes the connection.
  unfoldable pub open_session : ℕ → Buffer → Buffer → kernel.Interest → Session → Outcome Session
  open_session fd input output k s = do
    c ← connect_established kernel true (new_conn kernel fd input output k)
    ok (record s { connected_flag = true; connection = some c })

  abbrev pub shut_open : Conn kernel → Outcome (Conn kernel)
  shut_open c = if is_disconnected c.state then ok c else shutdown kernel true c

  -- `disconnect`; in another thread the shutdown is queued, if there is a connection that is open.
  unfoldable pub disconnect : Bool → Session → Outcome Session
  disconnect true s = with_connection shut_open s
  disconnect false s = elim s.connection [
    | none ↦ ok s
    | some c ↦ ok (if is_disconnected c.state then s else record s { queued = suc s.queued })
  ]

  -- The queued calls, which test the connection again.
  unfoldable pub run_queued : ℕ → Session → Outcome Session
  run_queued zero s = ok (record s { queued = 0 })
  run_queued (suc n) s = with_connection shut_open s >>= run_queued n

  -- The close callback of the connection.
  unfoldable pub close_session : Bool → Session → Outcome Session
  close_session here s = do check here; ok (record s { connected_flag = false; connection = none })

  -- `disconnect`, and the loop that runs what it queued.
  abbrev pub disconnected_by : Bool → Session → Outcome Session
  disconnected_by here s = disconnect here s >>= λ s'. run_queued s'.queued s'
