-- ===== src/TcpConnection/Events.antt =====
-- src/TcpConnection.cpp: the handlers of a connection's channel.
use knet_lib.Common.{
  ℕ, ◌==◌, Bool, not, ◌&&◌, ◌||◌, List, [], ◌∷◌, ◌++◌, take, ltb, if◌then◌else◌, Outcome, ok, check,
  ◌>>=◌, ◌>>◌,
}
use knet_lib.Sys.{ReadResult, received, read_failed, WriteResult, wrote, write_failed, eagain}
use knet_lib.Buffer.{readable_bytes, contents, retrieve}
use knet_lib.Buffer.Fd.{read_fd}
use knet_lib.Channel
use knet_lib.Channel.{is_writing}
use knet_lib.Epoll.{Kernel, remove_channel, disable_write}
use knet_lib.TcpConnection.{
  Conn, Handlers, disconnected, run_write_complete, is_connected, is_disconnecting, is_disconnected,
  is_some, is_fault, on_channel, queue_in_loop, shutdown_in_loop,
}

module _ (kernel : Kernel) (handlers : Handlers kernel) where
  open handlers use {message_callback, write_complete_callback}

  -- The callback runs last, with the state and the registration already changed.
  unfoldable pub handle_close : Bool → Conn kernel → Outcome (Conn kernel)
  handle_close here c = do
    check here
    check (is_connected c.state || is_disconnecting c.state)
    c' ← on_channel kernel (remove_channel kernel) here (record c { state = disconnected })
    Channel.call handlers.close_callback c'

  -- SO_ERROR is read for the log alone.
  unfoldable pub handle_error : Bool → Conn kernel → Outcome (Conn kernel)
  handle_error here c = do check here; handle_close here c

  unfoldable pub handle_read : (List ℕ → ReadResult) → Bool → Conn kernel → Outcome (Conn kernel)
  handle_read readv here c = do
    check here
    if is_disconnected c.state then ok c else (do
      (r, input) ← read_fd readv c.input_buffer
      let c' = record c { input_buffer = input }
      elim r [
        | read_failed errno ↦ handle_error here c'
        | received [] ↦ handle_close here c'
        | received (x ∷ xs) ↦ Channel.call message_callback c'
      ])

  -- What follows a write that emptied the output buffer.
  unfoldable pub write_finished : Bool → Conn kernel → Outcome (Conn kernel)
  write_finished here c = do
    c1 ← on_channel kernel (disable_write kernel) here c
    c2 ← (if is_disconnecting c1.state then shutdown_in_loop kernel here c1 else ok c1)
    ok (if is_some write_complete_callback then queue_in_loop kernel run_write_complete c2 else c2)

  unfoldable pub handle_write : (List ℕ → WriteResult) → Bool → Conn kernel → Outcome (Conn kernel)
  handle_write write here c = do
    check here
    if is_disconnected c.state then ok c else (do
      check (ltb 0 (readable_bytes c.output_buffer))
      check (is_writing c.channel)
      let bytes = contents c.output_buffer
      elim (write bytes) [
        | write_failed errno ↦
            if not (errno == eagain) && is_fault errno then handle_error here c else ok c
        | wrote n ↦ (do
          output ← retrieve n c.output_buffer
          let c' = record c { output_buffer = output; wire = c.wire ++ take n bytes }
          if readable_bytes output == 0 then write_finished here c' else ok c')
      ])
