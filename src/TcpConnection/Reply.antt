-- ===== src/TcpConnection/Reply.antt =====
-- TcpConnection with a message callback that takes all input and sends a reply to it, as the servers
-- of examples/ do: from the event to the reply.
use knet_lib.Common.{
  ℕ, ◌+◌, ◌≤◌, ◌≡◌, sym, ap, ◌∙◌, true, false, List, [], ◌∷◌, ◌++◌, some, max, length, arith,
  Outcome, ◌>>=◌, Returns, Returns-bind, Returns-map,
}
use knet_lib.Sys.{ReadResult, received, read_failed, received_bytes, IsReadv, WriteResult}
use knet_lib.Buffer.{Buffer, max_size, contents, writable_bytes, retrieve_all_as_string}
use knet_lib.Buffer.Valid.{IsValid, retrieve_all_as_string-Returns}
use knet_lib.Buffer.Fd.{iovec, read_fd, read_fd-Returns}
use knet_lib.Channel
use knet_lib.Epoll.{Kernel, IsEpoll}
use knet_lib.TcpConnection.{Conn, Handlers, connected, is_connected, is_disconnected}
use knet_lib.TcpConnection.Events.{handle_read, handle_close, handle_error}
use knet_lib.TcpConnection.Sending.{send}
use knet_lib.TcpConnection.Sound.{IsSound, stream}
use knet_lib.TcpConnection.Stream.{IsSteady, Carried, runs_send-Carried}

module _ (kernel : Kernel) (base : Handlers kernel) (write : List ℕ → WriteResult)
    (reply : List ℕ → List ℕ) where
  -- `std::string msg = buf.retrieveAllAsString(); conn->send(..)`.
  unfoldable pub answer : Conn kernel → Outcome (Conn kernel)
  answer c = do
    (msg, input) ← retrieve_all_as_string c.input_buffer
    send kernel base write (reply msg) true (record c { input_buffer = input })

  -- The callbacks of `base`, and this one for messages.
  abbrev pub with_answer : Handlers kernel
  with_answer = record base { message_callback = some answer }

  -- The connection after a reply to `msg`.
  pub record Replied (c : Conn kernel) (msg : List ℕ) (d : Conn kernel) : Type 0 where
    pub sound : IsSound kernel d
    pub all_read : contents d.input_buffer ≡ []
    pub sent : stream kernel d ≡ stream kernel c ++ reply msg
    pub same_state : d.state ≡ c.state

  IsSound-input :
      {c : Conn kernel} (input : Buffer)
      → IsSound kernel c
      → IsValid input
      → IsSound kernel (record c { input_buffer = input })
  IsSound-input input s v = record {
    input_valid = v;
    output_valid = s.output_valid;
    mask = s.mask;
    unlisted = s.unlisted;
    idle = s.idle;
    busy = s.busy;
    armed = s.armed;
  }

  module _ (epoll : IsEpoll kernel) (steady : IsSteady write) where
    sent-Carried :
        (c : Conn kernel) (bytes : List ℕ)
        → IsSound kernel c
        → c.state ≡ connected
        → c.output_buffer.writer_index + length bytes ≤ max_size
        → Returns (Carried kernel base c bytes) (send kernel base write bytes true c)
    unfolding send
    sent-Carried c bytes s e fits =
        let open_ : is_disconnected c.state ≡ false = ap is_disconnected e in
        let able : is_connected c.state ≡ true = ap is_connected e in
        simp able (runs_send-Carried kernel base epoll write bytes {c = c} steady s open_ fits)

    answer-Replied :
        (c : Conn kernel) (msg : List ℕ)
        → msg ≡ contents c.input_buffer
        → IsSound kernel c
        → c.state ≡ connected
        → c.output_buffer.writer_index + length (reply msg) ≤ max_size
        → Returns (Replied c msg) (answer c)
    unfolding answer
    answer-Replied c msg same s e fits =
        Returns-bind _ (Replied c msg) (retrieve_all_as_string c.input_buffer) _
          (retrieve_all_as_string-Returns s.input_valid)
          (λ (msg', input) r.
            let c' : Conn kernel = record c { input_buffer = input } in
            let same' : reply msg' ≡ reply msg = ap reply (r.0 ∙ sym same) in
            Returns-map (Carried kernel base c' (reply msg')) (Replied c msg)
              (send kernel base write (reply msg') true c')
              (sent-Carried c' (reply msg') (IsSound-input input s r.1.0) e
                (omega (arith, fits, ap length same')))
              (λ d a. record {
                sound = a.sound;
                all_read = ap contents a.same_input ∙ r.1.1;
                sent = a.bytes_kept ∙ ap (λ bs. stream kernel c ++ bs) same';
                same_state = a.same_state;
              }))

    -- What `handleRead` does with an answer of readFd that holds bytes.
    read_some :
        (c : Conn kernel) (r : ReadResult) (x : ℕ) (xs msg : List ℕ)
        → r ≡ received (x ∷ xs)
        → Returns (Replied c msg) (answer c)
        → Returns (Replied c msg) (elim r [
          | read_failed errno ↦ handle_error kernel with_answer true c
          | received [] ↦ handle_close kernel with_answer true c
          | received (y ∷ ys) ↦ Channel.call with_answer.message_callback c
        ])
    read_some c (read_failed errno) x xs msg e h = absurd (cc)
    read_some c (received []) x xs msg e h = absurd (cc)
    read_some c (received (y ∷ ys)) x xs msg e h = h

    -- A readable event on a sound, connected connection for which readv gives bytes, with a
    -- message callback that takes all input and sends a reply to it, returns if the input and the
    -- reply fit their vectors and write(2) reports no fatal error: all input is read, and the
    -- bytes on the wire with those that wait have grown by the reply to the input, the earlier
    -- input included; the state is the same.
    pub handle_read-Replied :
        (readv : List ℕ → ReadResult) (c : Conn kernel) (x : ℕ) (xs : List ℕ)
        → IsSound kernel c
        → c.state ≡ connected
        → IsReadv readv
        → readv (iovec c.input_buffer) ≡ received (x ∷ xs)
        → length c.input_buffer.buffer + max (writable_bytes c.input_buffer) 131071 ≤ max_size
        → c.output_buffer.writer_index + length (reply (contents c.input_buffer ++ x ∷ xs))
          ≤ max_size
        → Returns
            (Replied c (contents c.input_buffer ++ x ∷ xs))
            (handle_read kernel with_answer readv true c)
    unfolding handle_read
    handle_read-Replied readv c x xs s e io came small fits =
        let open_ : is_disconnected c.state ≡ false = ap is_disconnected e in
        let msg = contents c.input_buffer ++ x ∷ xs in
        simp open_ (
          Returns-bind _ (Replied c msg) (read_fd readv c.input_buffer) _
            (read_fd-Returns readv io s.input_valid small)
            (λ (r, input) h.
              let got : r ≡ received (x ∷ xs) = h.0 ∙ came in
              let c' : Conn kernel = record c { input_buffer = input } in
              let same : msg ≡ contents input =
                sym (
                  h.2 ∙ ap (λ (r : ReadResult). contents c.input_buffer ++ received_bytes r) got) in
              Returns-map (Replied c' msg) (Replied c msg) _
                (read_some c' r x xs msg got
                  (answer-Replied c' msg same (IsSound-input input s h.1) e fits))
                (λ d a. record {
                  sound = a.sound;
                  all_read = a.all_read;
                  sent = a.sent;
                  same_state = a.same_state;
                })))
