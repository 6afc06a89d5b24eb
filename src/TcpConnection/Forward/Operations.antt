-- ===== src/TcpConnection/Forward/Operations.antt =====
-- TcpConnection: no sequence of calls, tasks and events takes a connection back to an earlier state.
use knet_lib.Common.{
  ℕ, ◌≤◌, ◌≡◌, Bool, true, false, not, List, ◌∷◌, [], Option, none, some, Outcome, ok, crash,
  IfReturns, IfReturns-bind, IfReturns-check, ◌>>=◌, arith,
}
use knet_lib.Sys.{ReadResult, WriteResult}
use knet_lib.Epoll.{Kernel}
use knet_lib.TcpConnection.{
  disconnecting, is_connected, is_disconnected, Conn, Handlers, Task, run_write_complete,
  run_high_water, run_send, run_shutdown, run_force_close, run_stop_read, run_start_read,
}
use knet_lib.TcpConnection.Sending.{
  send, force_close_in_loop, force_close_exchange, force_close, run_task, channel_callbacks,
  dispatch,
}
use knet_lib.TcpConnection.Forward.{
  stage, stage_open, Since, Forward, either, shutdown_in_loop-Forward, stop_read_in_loop-Forward,
  start_read_in_loop-Forward,
}
use knet_lib.TcpConnection.Forward.Calls.{
  AllForward, MarkForward, call-Forward, handle_close-Forward, handle_error-Forward,
  handle_read-Forward,
}
use knet_lib.TcpConnection.{connect_established, shutdown, shutdown_exchange, stop_read, start_read}
use knet_lib.TcpConnection.Forward.{
  connect_established-Forward, shutdown-Forward, shutdown_exchange-Forward, stop_read-Forward,
  start_read-Forward,
}
use knet_lib.TcpConnection.Forward.Moves.{handle_write-Forward, send_in_loop-Forward}
use knet_lib.Channel.Dispatch.{handle_events-Keeps}

-- What can happen to a connection after its constructor. A Boolean is the answer to whether the
-- calling thread is the loop's. `shutdown` and `forceClose` are one operation in the loop's thread;
-- in another they are their exchange, which comes at some time after a load that found the
-- connection open.
pub data Operation : Type 0 where
  call_connect_established : Bool → Operation
  call_send : (List ℕ → WriteResult) → List ℕ → Bool → Operation
  call_shutdown call_force_close exchange_shutdown exchange_force_close : Operation
  call_stop_read call_start_read : Bool → Operation
  task_runs : (List ℕ → WriteResult) → Task → Operation
  event_comes : (List ℕ → ReadResult) → (List ℕ → WriteResult) → Bool → Bool → Operation

module _ (kernel : Kernel) (handlers : Handlers kernel) where
  open handlers use {write_complete_callback, high_water_mark_callback}

  abbrev pub perform : Operation → Conn kernel → Outcome (Conn kernel)
  perform (call_connect_established here) = connect_established kernel here
  perform (call_send write bytes here) = send kernel handlers write bytes here
  perform call_shutdown = shutdown kernel true
  perform call_force_close = force_close kernel handlers true
  perform exchange_shutdown = shutdown_exchange kernel false
  perform exchange_force_close = force_close_exchange kernel handlers false
  perform (call_stop_read here) = stop_read kernel here
  perform (call_start_read here) = start_read kernel here
  perform (task_runs write task) = run_task kernel handlers write task
  perform (event_comes readv write here alive) = dispatch kernel handlers readv write here alive

  abbrev pub perform_all : List Operation → Conn kernel → Outcome (Conn kernel)
  perform_all [] c = ok c
  perform_all (o ∷ os) c = do c' ← perform o c; perform_all os c'

  -- An exchange finds the connection open, as the load before it did.
  abbrev pub IsInTime : Operation → Conn kernel → Type 0
  IsInTime exchange_shutdown c = is_disconnected c.state ≡ false
  IsInTime exchange_force_close c = is_disconnected c.state ≡ false
  IsInTime _ c = Unit

  abbrev pub AllInTime : List Operation → Conn kernel → Type 0
  AllInTime [] c = Unit
  AllInTime (o ∷ os) c = IsInTime o c × IfReturns (AllInTime os) (perform o c)

  module _ (forward : AllForward kernel handlers) where
    send-Forward :
        (write : List ℕ → WriteResult) (bytes : List ℕ) (here : Bool)
        → Forward kernel (send kernel handlers write bytes here)
    unfolding send
    send-Forward write bytes here n c h =
        either kernel (Since kernel n) (not (is_connected c.state)) _ _ (λ t. h)
          (λ t.
            either kernel (Since kernel n) here _ _
              (λ u. send_in_loop-Forward kernel handlers forward write bytes here n c h) (λ u. h))

    force_close_in_loop-Forward :
        (here : Bool) → Forward kernel (force_close_in_loop kernel handlers here)
    unfolding force_close_in_loop
    force_close_in_loop-Forward here n c h = IfReturns-check (Since kernel n) here _ (λ e.
        either kernel (Since kernel n) (is_disconnected c.state) _ _ (λ t. h)
          (λ t. handle_close-Forward kernel handlers forward here n c h))

    force_close_exchange-Forward :
        (here : Bool) (n : ℕ) (c : Conn kernel)
        → is_disconnected c.state ≡ false
        → Since kernel n c
        → IfReturns (Since kernel n) (force_close_exchange kernel handlers here c)
    unfolding force_close_exchange
    force_close_exchange-Forward here n c open_ h =
        let c' : Conn kernel = record c { state = disconnecting } in
        let later : n ≤ 2 = omega (arith, stage_open c.state open_) in
        rw open_ (
          either kernel (Since kernel n) here _ _ (λ u. force_close_in_loop-Forward here n c' later)
            (λ u. later))

    force_close-Forward : (here : Bool) → Forward kernel (force_close kernel handlers here)
    unfolding force_close
    force_close-Forward here n c h =
        either kernel (Since kernel n) (is_disconnected c.state) _ _ (λ t. h)
          (λ t. force_close_exchange-Forward here n c t h)

    mark-Forward :
        (f : Option (ℕ → Conn kernel → Outcome (Conn kernel))) (size : ℕ)
        → MarkForward kernel handlers f
        → Forward kernel (λ c. elim f [ none ↦ ok c | some g ↦ g size c ])
    mark-Forward none size a n c h = h
    mark-Forward (some g) size a n c h = a size n c h

    run_task-Forward :
        (write : List ℕ → WriteResult) (task : Task)
        → Forward kernel (run_task kernel handlers write task)
    unfolding run_task
    run_task-Forward write run_write_complete =
        call-Forward kernel handlers write_complete_callback forward.write_complete
    run_task-Forward write (run_high_water size) =
        mark-Forward high_water_mark_callback size forward.high_water
    run_task-Forward write (run_send bytes) =
        send_in_loop-Forward kernel handlers forward write bytes true
    run_task-Forward write run_shutdown = shutdown_in_loop-Forward kernel true
    run_task-Forward write run_force_close = force_close_in_loop-Forward true
    run_task-Forward write run_stop_read = stop_read_in_loop-Forward kernel true
    run_task-Forward write run_start_read = start_read_in_loop-Forward kernel true

    dispatch-Forward :
        (readv : List ℕ → ReadResult) (write : List ℕ → WriteResult) (here alive : Bool)
        → Forward kernel (dispatch kernel handlers readv write here alive)
    unfolding dispatch
    dispatch-Forward readv write here alive n c h =
        handle_events-Keeps (λ (c : Conn kernel). c.channel) (λ ch c. record c { channel = ch })
          (channel_callbacks kernel handlers readv write here) (Since kernel n) (λ ch d k. k)
          (handle_close-Forward kernel handlers forward here n)
          (handle_error-Forward kernel handlers forward here n)
          (handle_read-Forward kernel handlers forward readv here n)
          (handle_write-Forward kernel handlers forward write here n) here alive c h

    perform-Forward :
        (o : Operation) (n : ℕ) (c : Conn kernel)
        → IsInTime o c
        → Since kernel n c
        → IfReturns (Since kernel n) (perform o c)
    perform-Forward (call_connect_established here) n c t h =
        connect_established-Forward kernel here n c h
    perform-Forward (call_send write bytes here) n c t h = send-Forward write bytes here n c h
    perform-Forward call_shutdown n c t h = shutdown-Forward kernel true n c h
    perform-Forward call_force_close n c t h = force_close-Forward true n c h
    perform-Forward exchange_shutdown n c t h = shutdown_exchange-Forward kernel false n c t h
    perform-Forward exchange_force_close n c t h = force_close_exchange-Forward false n c t h
    perform-Forward (call_stop_read here) n c t h = stop_read-Forward kernel here n c h
    perform-Forward (call_start_read here) n c t h = start_read-Forward kernel here n c h
    perform-Forward (task_runs write task) n c t h = run_task-Forward write task n c h
    perform-Forward (event_comes readv write here alive) n c t h =
        dispatch-Forward readv write here alive n c h

    since_all :
        (os : List Operation) (n : ℕ) (c : Conn kernel)
        → AllInTime os c
        → Since kernel n c
        → IfReturns (Since kernel n) (perform_all os c)
    since_all [] n c t h = h
    since_all (o ∷ os) n c (t, ts) h =
        IfReturns-bind (λ d. Since kernel n d × AllInTime os d) (Since kernel n) (perform o c) _
          (both (Since kernel n) (AllInTime os) (perform o c) (perform-Forward o n c t h) ts)
          (λ d k. since_all os n d k.1 k.0)
      where
        both :
            (P Q : Conn kernel → Type 0) (x : Outcome (Conn kernel))
            → IfReturns P x
            → IfReturns Q x
            → IfReturns (λ d. P d × Q d) x
        both P Q (ok d) p q = (p, q)
        both P Q (crash k) p q = tt

    -- No sequence of calls on a connection, of its queued tasks and of events takes it back to an
    -- earlier state, where `shutdown` and `forceClose` are whole calls in the loop's thread and,
    -- in another, exchanges that still find the connection open, as the loads before them did: as
    -- long as the process goes on, and if the owner's callbacks do not take it back either, the
    -- state is the one at the start or a later one of connecting, connected, disconnecting and
    -- disconnected.
    pub perform_all-Since :
        (os : List Operation) (c : Conn kernel)
        → AllInTime os c
        → IfReturns (Since kernel (stage c.state)) (perform_all os c)
    perform_all-Since os c t = since_all os (stage c.state) c t (omega arith)
