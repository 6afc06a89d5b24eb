-- ===== src/TcpConnection/Forward.antt =====
-- TcpConnection: the state of a connection only moves forward.
pub mod Calls
pub mod Moves
pub mod Operations
pub mod Late
use knet_lib.Common.{
  ℕ, ◌≤◌, ◌≡◌, refl, Bool, true, false, not, ◌||◌, ◌&&◌, List, ◌∷◌, [], ◌++◌, Option, none, some,
  if◌then◌else◌, Outcome, ok, check, IfReturns, any_outcome, IfReturns-bind, IfReturns-check, ◌>>=◌,
  ◌>>◌, arith, Bool-cases, inl, inr, ltb, length, ◌==◌,
}
use knet_lib.Sys.{ReadResult, received, read_failed, WriteResult, wrote, write_failed}
use knet_lib.Buffer.{readable_bytes, contents, retrieve, append}
use knet_lib.Buffer.Fd.{read_fd}
use knet_lib.Channel
use knet_lib.Channel.{Channel, is_writing, is_reading}
use knet_lib.Epoll.{Kernel, enable_read, disable_read}
use knet_lib.TcpConnection.{
  State, connecting, connected, disconnecting, disconnected, is_connecting, is_connected,
  is_disconnecting, is_disconnected, Conn, Handlers, Task, run_write_complete, run_high_water,
  run_send, run_shutdown, run_force_close, run_stop_read, run_start_read, on_channel,
  connect_established, shutdown, shutdown_exchange, shutdown_in_loop, stop_read, stop_read_in_loop,
  start_read, start_read_in_loop, queue_in_loop,
}
use knet_lib.TcpConnection.Events.{
  handle_close, handle_error, handle_read, handle_write, write_finished,
}
use knet_lib.TcpConnection.Sending.{
  note_high_water, send_rest, send_in_loop, send, force_close_in_loop, force_close, run_task,
  dispatch,
}

abbrev pub stage : State → ℕ
stage connecting = 0
stage connected = 1
stage disconnecting = 2
stage disconnected = 3

stage-connecting : (s : State) → is_connecting s ≡ true → stage s ≤ 1
stage-connecting connecting e = omega arith
stage-connecting connected e = absurd (cc)
stage-connecting disconnecting e = absurd (cc)
stage-connecting disconnected e = absurd (cc)

pub stage_open : (s : State) → is_disconnected s ≡ false → stage s ≤ 2
stage_open connecting e = omega arith
stage_open connected e = omega arith
stage_open disconnecting e = omega arith
stage_open disconnected e = absurd (cc)

pub stage_bound : (s : State) → stage s ≤ 3
stage_bound connecting = omega arith
stage_bound connected = omega arith
stage_bound disconnecting = omega arith
stage_bound disconnected = omega arith

module _ (kernel : Kernel) where
  -- The state is `n` or a later one.
  abbrev pub Since : ℕ → Conn kernel → Type 0
  Since n c = n ≤ stage c.state

  -- Where the operation returns, the state is no earlier than before.
  abbrev pub Forward : (Conn kernel → Outcome (Conn kernel)) → Type 0
  Forward f = (n : ℕ) (c : Conn kernel) → Since n c → IfReturns (Since n) (f c)

  -- One of two operations.
  pub either :
      (P : Conn kernel → Type 0) (b : Bool) (x y : Outcome (Conn kernel))
      → (b ≡ true → IfReturns P x)
      → (b ≡ false → IfReturns P y)
      → IfReturns P (if b then x else y)
  either P true x y h k = h refl
  either P false x y h k = k refl

  pub on_channel-Forward :
      (f : Bool → Channel → kernel.Interest → Outcome (Channel × kernel.Interest)) (here : Bool)
      → Forward (on_channel kernel f here)
  on_channel-Forward f here n c h =
      IfReturns-bind (λ r. Unit) (Since n) (f here c.channel c.interest) _
        (any_outcome (f here c.channel c.interest)) (λ r u. h)

  pub connect_established-Forward : (here : Bool) → Forward (connect_established kernel here)
  unfolding connect_established
  connect_established-Forward here n c h = IfReturns-check (Since n) (is_connecting c.state) _ (λ e.
      on_channel-Forward (enable_read kernel) here n
        (record c { state = connected; channel = Channel.tie c.channel })
        (omega (arith, stage-connecting c.state e)))

  pub shutdown_in_loop-Forward : (here : Bool) → Forward (shutdown_in_loop kernel here)
  unfolding shutdown_in_loop
  shutdown_in_loop-Forward here n c h = IfReturns-check (Since n) here _ (λ e.
      kept (not (is_disconnected c.state) && not (is_writing c.channel))
        (record c { wr_shut = true }) h)
    where
      kept :
          (b : Bool) (d : Conn kernel) → Since n d → IfReturns (Since n) (ok (if b then d else c))
      kept true d k = k
      kept false d k = h

  -- As long as the connection is open at the exchange.
  pub shutdown_exchange-Forward :
      (here : Bool) (n : ℕ) (c : Conn kernel)
      → is_disconnected c.state ≡ false
      → Since n c
      → IfReturns (Since n) (shutdown_exchange kernel here c)
  unfolding shutdown_exchange
  shutdown_exchange-Forward here n c open_ h =
      let c' : Conn kernel = record c { state = disconnecting } in
      let later : n ≤ 2 = omega (arith, stage_open c.state open_) in
      either (Since n) (is_connected c.state) _ _
        (λ t.
          either (Since n) here _ _ (λ u. shutdown_in_loop-Forward here n c' later) (λ u. later))
        (λ t. later)

  pub shutdown-Forward : (here : Bool) → Forward (shutdown kernel here)
  unfolding shutdown
  shutdown-Forward here n c h =
      IfReturns-check (Since n) (not (is_disconnected c.state)) _
        (λ e. shutdown_exchange-Forward here n c (opened (is_disconnected c.state) e) h)
    where
      opened : (b : Bool) → not b ≡ true → b ≡ false
      opened true e = absurd (cc)
      opened false e = refl

  pub stop_read_in_loop-Forward : (here : Bool) → Forward (stop_read_in_loop kernel here)
  unfolding stop_read_in_loop
  stop_read_in_loop-Forward here n c h =
      either (Since n) (is_reading c.channel) _ _
        (λ t. on_channel-Forward (disable_read kernel) here n c h) (λ t. h)

  pub start_read_in_loop-Forward : (here : Bool) → Forward (start_read_in_loop kernel here)
  unfolding start_read_in_loop
  start_read_in_loop-Forward here n c h =
      either (Since n) (is_reading c.channel) _ _ (λ t. h)
        (λ t. on_channel-Forward (enable_read kernel) here n c h)

  pub stop_read-Forward : (here : Bool) → Forward (stop_read kernel here)
  unfolding stop_read
  stop_read-Forward here n c h =
      either (Since n) here _ _ (λ t. stop_read_in_loop-Forward here n c h) (λ t. h)

  pub start_read-Forward : (here : Bool) → Forward (start_read kernel here)
  unfolding start_read
  start_read-Forward here n c h =
      either (Since n) here _ _ (λ t. start_read_in_loop-Forward here n c h) (λ t. h)
