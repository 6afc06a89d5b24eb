-- ===== src/TcpClient/Connects.antt =====
-- TcpClient: an attempt that is in progress and then succeeds.
use knet_lib.Common.{
  ℕ, ◌+◌, ◌≡◌, refl, ap, ◌∙◌, true, false, [], Option, none, some, ◌>>=◌, Returns, Returns-bind,
  Returns-ok, ok, crash, null_pointer, subst, sym, Bool-cases, inl, inr,
}
use knet_lib.Sys.{einprogress}
use knet_lib.Channel.Masks.{IsMask}
use knet_lib.Epoll.{Kernel, IsEpoll, remove_channel}
use knet_lib.Epoll.Registered.{IsUnlisted, remove_channel-Returns}
use knet_lib.Epoll.Changes.{Agrees-IsUnlisted}
use knet_lib.Connector
use knet_lib.Connector.{Connector, Report, nothing, new_connection, destroy}
use knet_lib.Connector.Attempts.{Attempted, handle_write-Attempted, start-InProgress}
use knet_lib.TimerQueue.{TimerQueue, Timer, new_timer, add_timer, cancel_timer, erase_timer, put}
use knet_lib.TimerQueue.Dangling.{canceled_once, put-same}
use knet_lib.TimerQueue.Kept.{IsKept, add_timer-heap}
use knet_lib.TcpClient.{
  TcpClient, retry_interval, cancel_retry, on_new_connection, on_report, start_connector, start,
  on_writable, destroy_client,
}

module _ (kernel : Kernel) where
  -- The client waits for its connector, which is registered, with the retry timer at `p`.
  pub record IsTrying (p fd : ℕ) (c : TcpClient kernel) : Type 0 where
    begun : c.connector.started ≡ true
    called : c.connector.has_callback ≡ true
    socket : c.connector.sockfd ≡ fd
    unlisted : IsUnlisted kernel c.connector.channel c.interest
    timer : c.retry_timer ≡ some p
    alive : (t : Timer) × (c.timers.heap p ≡ some t) × (t.canceled ≡ false)

  -- The client's flag is set and the descriptor of its connection known, and the retry timer is gone.
  pub record IsConnected (p fd : ℕ) (c : TcpClient kernel) : Type 0 where
    flag : c.connected ≡ true
    connection : c.connection ≡ some fd
    no_timer : c.retry_timer ≡ none
    deleted : c.timers.heap p ≡ none
    off_poller : c.connector.channel.pooling ≡ false

  trying :
      (so_error : ℕ) (c : TcpClient kernel) (d : Connector kernel) (k' : kernel.Interest)
      → Connector.start kernel (some einprogress) so_error true c.connector c.interest
        ≡ ok ((d, nothing), k')
      → start_connector kernel (some einprogress) so_error true c
        ≡ ok (record c { connector = d; interest = k' })
  unfolding start_connector on_report
  trying so_error c d k' e = rw e refl

  abbrev canceled : ℕ → TimerQueue → TimerQueue
  canceled p q = record q { timers = erase_timer p q.timers; heap = put p none q.heap }

  canceled_retry :
      (p : ℕ) (timer : Timer) (c : TcpClient kernel)
      → c.retry_timer ≡ some p
      → c.timers.heap p ≡ some timer
      → timer.canceled ≡ false
      → cancel_retry kernel c ≡ ok (record c { timers = canceled p c.timers })
  unfolding cancel_retry
  canceled_retry p timer c r e live =
      subst
        (λ (o : Option ℕ).
          (elim o [
            | none ↦ crash null_pointer
            | some r ↦ do q ← cancel_timer r c.timers; ok (record c { timers = q })
          ])
          ≡ ok (record c { timers = canceled p c.timers }))
        (sym r) (rw (canceled_once p timer c.timers e live) refl)

  module _ (epoll : IsEpoll kernel) where
    start-IsTrying :
        (so_error now p : ℕ) (c : TcpClient kernel)
        → IsUnlisted kernel c.connector.channel c.interest
        → IsMask c.connector.channel.events
        → c.connector.started ≡ false
        → c.connector.has_callback ≡ true
        → IsKept [] c.timers
        → c.timers.heap p ≡ none
        → Returns
            (IsTrying p c.connector.sockfd)
            (start kernel (some einprogress) so_error now p true c)
    unfolding start
    start-IsTrying so_error now p c u m s h k free =
        let (((d, report), k'), eq, (same, silent, changed)) =
          Returns-ok _
            (Connector.start kernel (some einprogress) so_error true c.connector c.interest)
            (start-InProgress kernel epoll c.connector c.interest u so_error s m) in
        let begun = trying so_error c d k' (eq ∙ ap (λ (r : Report). ok ((d, r), k')) silent) in
        rw begun (
          Returns-bind _ (IsTrying p c.connector.sockfd)
            (add_timer now p (now + retry_interval) retry_interval c.timers) _
            (add_timer-heap now p (now + retry_interval) retry_interval c.timers k free)
            (λ q e. record {
              begun = ap (λ (x : Connector kernel). x.started) same;
              called = ap (λ (x : Connector kernel). x.has_callback) same ∙ h;
              socket = ap (λ (x : Connector kernel). x.sockfd) same;
              unlisted = Agrees-IsUnlisted kernel d.channel k' changed.agrees;
              timer = refl;
              alive = (new_timer (now + retry_interval) retry_interval, e, refl);
            }))

    on_writable-IsConnected :
        (p fd : ℕ) (c : TcpClient kernel)
        → IsTrying p fd c
        → Returns (IsConnected p fd) (on_writable kernel 0 true c)
    unfolding on_writable on_report on_new_connection
    on_writable-IsConnected p fd c t =
        let (((d, report), k'), eq, a) =
          Returns-ok (Attempted kernel c.connector c.interest 0)
            (Connector.handle_write kernel 0 true c.connector c.interest)
            (handle_write-Attempted kernel epoll c.connector c.interest t.unlisted 0 t.begun) in
        let c' : TcpClient kernel = record c { connector = d; interest = k' } in
        let (timer, here, live) = t.alive in
        let stopped : cancel_retry kernel c' ≡ ok (record c' { timers = canceled p c.timers }) =
          canceled_retry p timer c' t.timer here live in
        simp (eq, (a.3 refl t.called).1, stopped)
          (record {
            flag = refl;
            connection = ap some t.socket;
            no_timer = refl;
            deleted = put-same p none c.timers.heap;
            off_poller = a.0;
          })

    -- A client that starts to connect, with a connector that has not started and whose descriptor
    -- is not registered, a timer queue whose set and heap belong together, and an address for the
    -- retry timer that is not in use, comes to the point of making its connection by the event
    -- that comes when the attempt succeeds: the flag is set, the connection is to be that of the
    -- connector's socket, the retry timer is canceled and deleted, and the connector's channel is
    -- off the poller.
    pub attempt-IsConnected :
        (now p : ℕ) (c : TcpClient kernel)
        → IsUnlisted kernel c.connector.channel c.interest
        → IsMask c.connector.channel.events
        → c.connector.started ≡ false
        → c.connector.has_callback ≡ true
        → IsKept [] c.timers
        → c.timers.heap p ≡ none
        → Returns
            (IsConnected p c.connector.sockfd)
            (start kernel (some einprogress) 0 now p true c >>= on_writable kernel 0 true)
    attempt-IsConnected now p c u m s h k free =
        Returns-bind (IsTrying p c.connector.sockfd) (IsConnected p c.connector.sockfd)
          (start kernel (some einprogress) 0 now p true c) (on_writable kernel 0 true)
          (start-IsTrying 0 now p c u m s h k free) (on_writable-IsConnected p c.connector.sockfd)

    given_up :
        (c : Connector kernel) (k : kernel.Interest)
        → IsUnlisted kernel c.channel k
        → c.started ≡ true
        → c.connected ≡ false
        → Returns (λ k'. kernel.watched k' c.channel.fd ≡ none) (Connector.destroy kernel true c k)
    unfolding destroy
    given_up c k u s f = elim (Bool-cases c.channel.pooling) [
      | inl t ↦
          simp (s, f, t)
            (Returns-bind _ _ (remove_channel kernel true c.channel k) _
              (remove_channel-Returns kernel epoll c.channel k u) (λ r h. h.1))
      | inr t ↦ simp (s, f, t) (u t)
    ]

    -- Destroying a client whose attempt is in progress returns, deletes the retry timer, and leaves
    -- the descriptor of the connector unregistered.
    pub destroy_client-Clears :
        (p fd : ℕ) (c : TcpClient kernel)
        → IsTrying p fd c
        → c.connection ≡ none
        → c.connector.connected ≡ false
        → Returns
            (λ r. (r.0.heap p ≡ none) × (kernel.watched r.1 c.connector.channel.fd ≡ none))
            (destroy_client kernel c)
    unfolding destroy_client
    destroy_client-Clears p fd c t n f =
        let (timer, here, live) = t.alive in
        simp (n, t.timer, canceled_once p timer c.timers here live)
          (Returns-bind (λ k'. kernel.watched k' c.connector.channel.fd ≡ none) _
            (Connector.destroy kernel true c.connector c.interest) _
            (given_up c.connector c.interest t.unlisted t.begun f)
            (λ k' w. (put-same p none c.timers.heap, w)))
