-- ===== src/TcpClient.antt =====
-- include/knetlib/TcpClient.h and src/TcpClient.cpp: one connection to a peer, tried again every
-- three seconds until it is made. The model follows the retry timer and the connector; the
-- connection itself is TcpConnection, and stands here as its descriptor.
pub mod Start
pub mod Connects
pub mod Session
mod Tests
use knet_lib.Common.{
  ℕ, ◌+◌, ◌*◌, Bool, true, false, not, Option, none, some, if◌then◌else◌, Outcome, ok, crash,
  null_pointer, check, ◌>>=◌, ◌>>◌,
}
use knet_lib.Epoll.{Kernel}
use knet_lib.Connector
use knet_lib.Connector.{Report, nothing, reported_error, new_connection, Connector, new_connector}
use knet_lib.TimerQueue.{TimerQueue, add_timer, cancel_timer}

abbrev pub retry_interval : ℕ
retry_interval = 3000000000

module _ (kernel : Kernel) where
  open kernel use {Interest}

  pub record TcpClient : Type 0 where
    pub connected : Bool
    pub retry_timer : Option ℕ
    pub connector : Connector kernel
    pub connection : Option ℕ
    pub timers : TimerQueue
    pub interest : Interest

  -- TimerQueue::cancelTimer of a pointer that may be null.
  unfoldable pub cancel_retry : TcpClient → Outcome TcpClient
  cancel_retry c = elim c.retry_timer [
    | none ↦ crash null_pointer
    | some p ↦ do q ← cancel_timer p c.timers; ok (record c { timers = q })
  ]

  -- The callback of the connector, up to where it stores the connection; TcpClient/Session makes and
  -- establishes that.
  unfoldable pub on_new_connection : Bool → ℕ → TcpClient → Outcome TcpClient
  unfolding cancel_retry
  on_new_connection here fd c = do
    check here
    c' ← cancel_retry c
    ok (record c' { retry_timer = none; connected = true; connection = some fd })

  unfoldable pub on_report : Bool → Report → TcpClient → Outcome TcpClient
  unfolding on_new_connection
  on_report here nothing c = ok c
  on_report here reported_error c = ok c
  on_report here (new_connection fd) c = on_new_connection here fd c

  -- `connector_->start()`, with what connect(2) and SO_ERROR answer.
  unfoldable pub start_connector : Option ℕ → ℕ → Bool → TcpClient → Outcome TcpClient
  unfolding on_report
  start_connector result so_error here c = do
    ((d, report), k) ← Connector.start kernel result so_error here c.connector c.interest
    on_report here report (record c { connector = d; interest = k })

  -- `now` is the time, and `p` the address of the new timer.
  unfoldable pub start : Option ℕ → ℕ → ℕ → ℕ → Bool → TcpClient → Outcome TcpClient
  unfolding start_connector
  start result so_error now p here c = do
    check here
    c' ← start_connector result so_error here c
    q ← add_timer now p (now + retry_interval) retry_interval c'.timers
    ok (record c' { retry_timer = some p; timers = q })

  -- `fd` is the new connector's socket. The old one leaves the poller first.
  unfoldable pub retry : Option ℕ → ℕ → ℕ → Bool → TcpClient → Outcome TcpClient
  unfolding start_connector
  retry result so_error fd here c = do
    check here
    if c.connected then ok c else (do
      k ← Connector.destroy kernel here c.connector c.interest
      let d = record (new_connector kernel fd) {
        has_callback = true;
        has_error_callback = c.connector.has_error_callback;
      }
      start_connector result so_error here (record c { connector = d; interest = k }))

  -- An event at the connector's socket: Connector::handleWrite, with the callback of the client.
  unfoldable pub on_writable : ℕ → Bool → TcpClient → Outcome TcpClient
  unfolding on_report
  on_writable so_error here c = do
    ((d, report), k) ← Connector.handle_write kernel so_error here c.connector c.interest
    on_report here report (record c { connector = d; interest = k })

  -- The close callback of the connection.
  unfoldable pub close_connection : Bool → TcpClient → Outcome TcpClient
  close_connection here c = do check here; ok (record c { connected = false; connection = none })

  -- The destructor in the loop's thread, with ~Connector: `forceClose` comes to the close callback
  -- at once. What is left are the timers and the registrations of the loop.
  unfoldable pub destroy_client : TcpClient → Outcome (TimerQueue × Interest)
  unfolding close_connection
  destroy_client c = do
    c1 ← elim c.connection [ none ↦ ok c | some fd ↦ close_connection true c ]
    q ← elim c1.retry_timer [ none ↦ ok c1.timers | some p ↦ cancel_timer p c1.timers ]
    k ← Connector.destroy kernel true c1.connector c1.interest
    ok (q, k)
