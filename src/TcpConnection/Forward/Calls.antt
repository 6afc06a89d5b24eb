-- ===== src/TcpConnection/Forward/Calls.antt =====
-- TcpConnection: the handlers of events and of sending move the state forward, if the callbacks of
-- the owner do.
use knet_lib.Common.{
  ℕ, Bool, true, false, ◌||◌, List, ◌∷◌, [], Option, none, some, if◌then◌else◌, Outcome, IfReturns,
  any_outcome, IfReturns-bind, IfReturns-check, arith,
}
use knet_lib.Sys.{ReadResult, received, read_failed}
use knet_lib.Buffer.Fd.{read_fd}
use knet_lib.Channel
use knet_lib.Channel.{Channel, Callbacks, is_writing}
use knet_lib.Epoll.{Kernel, remove_channel, disable_write}
use knet_lib.TcpConnection.{
  disconnected, is_connected, is_disconnecting, is_disconnected, is_some, Conn, Handlers, Task,
  run_write_complete, queue_in_loop,
}
use knet_lib.TcpConnection.Events.{handle_close, handle_error, handle_read, write_finished}
use knet_lib.TcpConnection.Forward.{
  stage_bound, Since, Forward, either, on_channel-Forward, shutdown_in_loop-Forward,
}

module _ (kernel : Kernel) (handlers : Handlers kernel) where
  open handlers use {
    message_callback, write_complete_callback, high_water_mark_callback, close_callback,
  }

  abbrev pub CallsForward : Option (Conn kernel → Outcome (Conn kernel)) → Type 0
  CallsForward none = Unit
  CallsForward (some f) = Forward kernel f

  abbrev pub MarkForward : Option (ℕ → Conn kernel → Outcome (Conn kernel)) → Type 0
  MarkForward none = Unit
  MarkForward (some f) = (size : ℕ) → Forward kernel (f size)

  -- The callbacks of the owner move the state forward.
  pub record AllForward : Type 0 where
    pub message : CallsForward message_callback
    pub write_complete : CallsForward write_complete_callback
    pub high_water : MarkForward high_water_mark_callback
    pub close : CallsForward close_callback

  pub call-Forward :
      (f : Option (Conn kernel → Outcome (Conn kernel)))
      → CallsForward f
      → Forward kernel (Channel.call f)
  call-Forward none a n c h = h
  call-Forward (some f) a n c h = a n c h

  module _ (forward : AllForward) where
    pub handle_close-Forward : (here : Bool) → Forward kernel (handle_close kernel handlers here)
    unfolding handle_close
    handle_close-Forward here n c h = IfReturns-check (Since kernel n) here _ (λ e.
        IfReturns-check (Since kernel n) (is_connected c.state || is_disconnecting c.state) _ (λ f.
          IfReturns-bind (Since kernel n) (Since kernel n) _ _
            (on_channel-Forward kernel (remove_channel kernel) here n
              (record c { state = disconnected }) (omega (arith, stage_bound c.state)))
            (λ d k. call-Forward close_callback forward.close n d k)))

    pub handle_error-Forward : (here : Bool) → Forward kernel (handle_error kernel handlers here)
    unfolding handle_error
    handle_error-Forward here n c h =
        IfReturns-check (Since kernel n) here _ (λ e. handle_close-Forward here n c h)

    -- What `handleRead` does with the answer of readFd.
    read_answered :
        (here : Bool) (n : ℕ) (r : ReadResult) (c : Conn kernel)
        → Since kernel n c
        → IfReturns (Since kernel n) (elim r [
          | read_failed errno ↦ handle_error kernel handlers here c
          | received [] ↦ handle_close kernel handlers here c
          | received (x ∷ xs) ↦ Channel.call message_callback c
        ])
    read_answered here n (read_failed errno) c h = handle_error-Forward here n c h
    read_answered here n (received []) c h = handle_close-Forward here n c h
    read_answered here n (received (x ∷ xs)) c h =
        call-Forward message_callback forward.message n c h

    pub handle_read-Forward :
        (readv : List ℕ → ReadResult) (here : Bool)
        → Forward kernel (handle_read kernel handlers readv here)
    unfolding handle_read
    handle_read-Forward readv here n c h = IfReturns-check (Since kernel n) here _ (λ e.
        either kernel (Since kernel n) (is_disconnected c.state) _ _ (λ t. h)
          (λ t.
            IfReturns-bind (λ r. Unit) (Since kernel n) (read_fd readv c.input_buffer) _
              (any_outcome (read_fd readv c.input_buffer))
              (λ r u. read_answered here n r.0 (record c { input_buffer = r.1 }) h)))

    pub queue_if :
        (b : Bool) (task : Task) (n : ℕ) (c : Conn kernel)
        → Since kernel n c
        → Since kernel n (if b then queue_in_loop kernel task c else c)
    queue_if true task n c h = h
    queue_if false task n c h = h

    pub write_finished-Forward :
        (here : Bool) → Forward kernel (write_finished kernel handlers here)
    unfolding write_finished
    write_finished-Forward here n c h =
        IfReturns-bind (Since kernel n) (Since kernel n) _ _
          (on_channel-Forward kernel (disable_write kernel) here n c h)
          (λ c1 h1.
            IfReturns-bind (Since kernel n) (Since kernel n) _ _
              (either kernel (Since kernel n) (is_disconnecting c1.state) _ _
                (λ t. shutdown_in_loop-Forward kernel here n c1 h1) (λ t. h1))
              (λ c2 h2. queue_if (is_some write_complete_callback) run_write_complete n c2 h2))
