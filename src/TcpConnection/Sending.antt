-- ===== src/TcpConnection/Sending.antt =====
-- src/TcpConnection.cpp: sending, closing, and what the loop runs for a connection.
use knet_lib.Common.{
  ℕ, ◌==◌, Bool, true, not, ◌&&◌, List, ◌++◌, none, some, length, take, ltb, leb, if◌then◌else◌,
  Outcome, ok, check, ◌>>=◌, ◌>>◌,
}
use knet_lib.Memory.{slice}
use knet_lib.Words.{add_size, sub_size}
use knet_lib.Sys.{ReadResult, WriteResult, wrote, write_failed, eagain}
use knet_lib.Buffer.{Buffer, readable_bytes, contents, append, retrieve_all, retrieve_all_as_string}
use knet_lib.Channel
use knet_lib.Channel.{Callbacks, is_writing}
use knet_lib.Epoll.{Kernel, enable_write}
use knet_lib.TcpConnection.{
  Conn, Handlers, disconnecting, Task, run_write_complete, run_high_water, run_send, run_shutdown,
  run_force_close, run_stop_read, run_start_read, is_connected, is_disconnected, is_some, is_fault,
  on_channel, queue_in_loop, shutdown_in_loop, stop_read_in_loop, start_read_in_loop,
}
use knet_lib.TcpConnection.Events.{handle_read, handle_write, handle_close, handle_error}

module _ (kernel : Kernel) (handlers : Handlers kernel) where
  open handlers use {write_complete_callback, high_water_mark_callback}

  -- The high-water mark callback is queued when the buffered bytes reach the mark from below.
  unfoldable pub note_high_water : ℕ → Conn kernel → Conn kernel
  note_high_water remain c =
      let old_len = readable_bytes c.output_buffer in
      let new_len = add_size old_len remain in
      if is_some high_water_mark_callback
        && (ltb old_len c.high_water_mark && leb c.high_water_mark new_len)
      then queue_in_loop kernel (run_high_water new_len) c
      else c

  -- The part of `sendInLoop` after the write, for `remain` bytes of `bytes` from index `n` on.
  unfoldable pub send_rest : List ℕ → ℕ → ℕ → Bool → Conn kernel → Outcome (Conn kernel)
  send_rest bytes n remain here c =
      if ltb 0 remain
      then (do
        let c1 = note_high_water remain c
        output ← append (slice bytes n remain) c1.output_buffer
        on_channel kernel (enable_write kernel) here (record c1 { output_buffer = output }))
      else ok c

  unfoldable pub send_in_loop :
      (List ℕ → WriteResult) → List ℕ → Bool → Conn kernel → Outcome (Conn kernel)
  send_in_loop write bytes here c = do
    check here
    if is_disconnected c.state
        then ok c
        else if is_writing c.channel
        then send_rest bytes 0 (length bytes) here c
        else (do
          check (readable_bytes c.output_buffer == 0)
          elim (write bytes) [
            | wrote n ↦
                (let remain = sub_size (length bytes) n in
                  let c1 = record c { wire = c.wire ++ take n bytes } in
                  let c2 =
                    if remain == 0 && is_some write_complete_callback
                    then queue_in_loop kernel run_write_complete c1
                    else c1 in
                  send_rest bytes n remain here c2)
            | write_failed errno ↦
                if not (errno == eagain) && is_fault errno
                then handle_close kernel handlers here c
                else send_rest bytes 0 (length bytes) here c
          ])

  unfoldable pub send : (List ℕ → WriteResult) → List ℕ → Bool → Conn kernel → Outcome (Conn kernel)
  send write bytes here c =
      if not (is_connected c.state)
      then ok c
      else if here
      then send_in_loop write bytes here c
      else ok (queue_in_loop kernel (run_send bytes) c)

  -- send(Buffer&), with the buffer that it empties.
  unfoldable pub send_buffer :
      (List ℕ → WriteResult) → Buffer → Bool → Conn kernel → Outcome (Buffer × Conn kernel)
  send_buffer write buffer here c =
      if not (is_connected c.state)
      then ok (buffer, c)
      else if here
      then (do c' ← send_in_loop write (contents buffer) here c; ok (retrieve_all buffer, c'))
      else (do
        (s, buffer') ← retrieve_all_as_string buffer
        ok (buffer', queue_in_loop kernel (run_send s) c))

  unfoldable pub force_close_in_loop : Bool → Conn kernel → Outcome (Conn kernel)
  force_close_in_loop here c = do
    check here
    if is_disconnected c.state then ok c else handle_close kernel handlers here c

  -- `forceClose` from the exchange on. In another thread than the loop's the state may have changed
  -- since the load.
  unfoldable pub force_close_exchange : Bool → Conn kernel → Outcome (Conn kernel)
  unfolding force_close_in_loop
  force_close_exchange here c =
      let c' = record c { state = disconnecting } in
      if is_disconnected c.state
      then ok c'
      else if here
      then force_close_in_loop here c'
      else ok (queue_in_loop kernel run_force_close c')

  -- The load, and the exchange that follows it at once.
  unfoldable pub force_close : Bool → Conn kernel → Outcome (Conn kernel)
  unfolding force_close_exchange
  force_close here c = if is_disconnected c.state then ok c else force_close_exchange here c

  -- A task, run by the loop in its thread.
  unfoldable pub run_task : (List ℕ → WriteResult) → Task → Conn kernel → Outcome (Conn kernel)
  run_task write run_write_complete c = Channel.call write_complete_callback c
  run_task write (run_high_water n) c = elim high_water_mark_callback [
    | none ↦ ok c
    | some f ↦ f n c
  ]
  run_task write (run_send bytes) c = send_in_loop write bytes true c
  run_task write run_shutdown c = shutdown_in_loop kernel true c
  run_task write run_force_close c = force_close_in_loop true c
  run_task write run_stop_read c = stop_read_in_loop kernel true c
  run_task write run_start_read c = start_read_in_loop kernel true c

  -- The events that the loop dispatches to the connection's channel.
  abbrev pub channel_callbacks :
      (List ℕ → ReadResult) → (List ℕ → WriteResult) → Bool → Callbacks (Conn kernel)
  channel_callbacks readv write here = record {
    on_read = some (handle_read kernel handlers readv here);
    on_write = some (handle_write kernel handlers write here);
    on_close = some (handle_close kernel handlers here);
    on_error = some (handle_error kernel handlers here);
  }

  unfoldable pub dispatch :
      (List ℕ → ReadResult)
      → (List ℕ → WriteResult)
      → Bool
      → Bool
      → Conn kernel
      → Outcome (Conn kernel)
  dispatch readv write here alive c =
      Channel.handle_events (λ (c : Conn kernel). c.channel) (λ ch c. record c { channel = ch })
        (channel_callbacks readv write here) here alive c
