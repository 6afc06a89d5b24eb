-- ===== src/TcpConnection/Forward/Moves.antt =====
-- TcpConnection: every operation, task and event moves the state of a connection forward.
use knet_lib.Common.{
  ℕ, Bool, not, ◌&&◌, List, ◌++◌, if◌then◌else◌, ok, IfReturns, any_outcome, IfReturns-bind,
  IfReturns-check, ◌>>=◌, ltb, length, ◌==◌, take,
}
use knet_lib.Memory.{slice}
use knet_lib.Words.{sub_size}
use knet_lib.Sys.{WriteResult, wrote, write_failed, eagain}
use knet_lib.Buffer.{readable_bytes, contents, retrieve, append}
use knet_lib.Channel.{is_writing}
use knet_lib.Epoll.{Kernel, enable_write}
use knet_lib.TcpConnection.{
  is_disconnected, is_some, is_fault, Conn, Handlers, run_write_complete, queue_in_loop,
}
use knet_lib.TcpConnection.Events.{handle_close, handle_error, handle_write, write_finished}
use knet_lib.TcpConnection.Sending.{note_high_water, send_rest, send_in_loop}
use knet_lib.TcpConnection.Forward.{Since, Forward, either, on_channel-Forward}
use knet_lib.TcpConnection.Forward.Calls.{
  AllForward, handle_close-Forward, handle_error-Forward, queue_if, write_finished-Forward,
}

module _ (kernel : Kernel) (handlers : Handlers kernel) (forward : AllForward kernel handlers) where
  open handlers use {write_complete_callback, high_water_mark_callback}

  written :
      (here : Bool) (n : ℕ) (bytes : List ℕ) (r : WriteResult) (c : Conn kernel)
      → Since kernel n c
      → IfReturns (Since kernel n) (elim r [
        | write_failed errno ↦
            if not (errno == eagain) && is_fault errno
            then handle_error kernel handlers here c
            else ok c
        | wrote m ↦ (do
          output ← retrieve m c.output_buffer
          let c' = record c { output_buffer = output; wire = c.wire ++ take m bytes }
          if readable_bytes output == 0 then write_finished kernel handlers here c' else ok c')
      ])
  written here n bytes (write_failed errno) c h =
      either kernel (Since kernel n) (not (errno == eagain) && is_fault errno) _ _
        (λ t. handle_error-Forward kernel handlers forward here n c h) (λ t. h)
  written here n bytes (wrote m) c h =
      IfReturns-bind (λ b. Unit) (Since kernel n) (retrieve m c.output_buffer) _
        (any_outcome (retrieve m c.output_buffer))
        (λ b u.
          either kernel (Since kernel n) (readable_bytes b == 0) _ _
            (λ t. write_finished-Forward kernel handlers forward here n _ h) (λ t. h))

  pub handle_write-Forward :
      (write : List ℕ → WriteResult) (here : Bool)
      → Forward kernel (handle_write kernel handlers write here)
  unfolding handle_write
  handle_write-Forward write here n c h = IfReturns-check (Since kernel n) here _ (λ e.
      either kernel (Since kernel n) (is_disconnected c.state) _ _ (λ t. h)
        (λ t. IfReturns-check (Since kernel n) (ltb 0 (readable_bytes c.output_buffer)) _ (λ e1.
          IfReturns-check (Since kernel n) (is_writing c.channel) _ (λ e2.
            written here n (contents c.output_buffer) (write (contents c.output_buffer)) c h))))

  note_high_water-Since :
      (remain n : ℕ) (c : Conn kernel)
      → Since kernel n c
      → Since kernel n (note_high_water kernel handlers remain c)
  unfolding note_high_water
  note_high_water-Since remain n c h = queue_if kernel handlers forward _ _ n c h

  send_rest-Forward :
      (bytes : List ℕ) (m remain : ℕ) (here : Bool)
      → Forward kernel (send_rest kernel handlers bytes m remain here)
  unfolding send_rest
  send_rest-Forward bytes m remain here n c h =
      either kernel (Since kernel n) (ltb 0 remain) _ _
        (λ t.
          let c1 = note_high_water kernel handlers remain c in
          IfReturns-bind (λ b. Unit) (Since kernel n)
            (append (slice bytes m remain) c1.output_buffer) _
            (any_outcome (append (slice bytes m remain) c1.output_buffer))
            (λ b u.
              on_channel-Forward kernel (enable_write kernel) here n
                (record c1 { output_buffer = b }) (note_high_water-Since remain n c h)))
        (λ t. h)

  sent :
      (here : Bool) (n : ℕ) (bytes : List ℕ) (r : WriteResult) (c : Conn kernel)
      → Since kernel n c
      → IfReturns (Since kernel n) (elim r [
        | wrote m ↦
            (let remain = sub_size (length bytes) m in
              let c1 = record c { wire = c.wire ++ take m bytes } in
              let c2 =
                if remain == 0 && is_some write_complete_callback
                then queue_in_loop kernel run_write_complete c1
                else c1 in
              send_rest kernel handlers bytes m remain here c2)
        | write_failed errno ↦
            if not (errno == eagain) && is_fault errno
            then handle_close kernel handlers here c
            else send_rest kernel handlers bytes 0 (length bytes) here c
      ])
  sent here n bytes (wrote m) c h =
      send_rest-Forward bytes m (sub_size (length bytes) m) here n _
        (queue_if kernel handlers forward _ _ n (record c { wire = c.wire ++ take m bytes }) h)
  sent here n bytes (write_failed errno) c h =
      either kernel (Since kernel n) (not (errno == eagain) && is_fault errno) _ _
        (λ t. handle_close-Forward kernel handlers forward here n c h)
        (λ t. send_rest-Forward bytes 0 (length bytes) here n c h)

  pub send_in_loop-Forward :
      (write : List ℕ → WriteResult) (bytes : List ℕ) (here : Bool)
      → Forward kernel (send_in_loop kernel handlers write bytes here)
  unfolding send_in_loop
  send_in_loop-Forward write bytes here n c h = IfReturns-check (Since kernel n) here _ (λ e.
      either kernel (Since kernel n) (is_disconnected c.state) _ _ (λ t. h)
        (λ t.
          either kernel (Since kernel n) (is_writing c.channel) _ _
            (λ u. send_rest-Forward bytes 0 (length bytes) here n c h)
            (λ u.
              IfReturns-check (Since kernel n) (readable_bytes c.output_buffer == 0) _
                (λ f. sent here n bytes (write bytes) c h))))
