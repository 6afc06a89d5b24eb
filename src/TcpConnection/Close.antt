-- ===== src/TcpConnection/Close.antt =====
-- TcpConnection: closing, and what a closed connection still does.
use knet_lib.Common.{
  &&-false, ℕ, ◌≡◌, refl, sym, ap, ◌∙◌, subst, inr, Bool, true, false, not, ◌||◌, List, none,
  false≢true, ok, crash, assertion, Returns, Returns-ok, Returns-map,
}
use knet_lib.Sys.{ReadResult, WriteResult}
use knet_lib.Channel
use knet_lib.Channel.{Channel, has, epollin, epollhup, epollerr, epollpri, is_reading, is_writing}
use knet_lib.Channel.Masks.{is_urgent, has-ne-zero}
use knet_lib.Epoll.{Kernel, IsEpoll, remove_channel, disable_read}
use knet_lib.Epoll.Registered.{SameBut, remove_channel-Returns}
use knet_lib.Epoll.Changes.{Changed, disable_read-Changed}
use knet_lib.TcpConnection.{
  Conn, Handlers, disconnected, is_connected, is_disconnecting, on_channel, shutdown_in_loop,
  stop_read,
}
use knet_lib.TcpConnection.Events.{handle_close, handle_error, handle_read, handle_write}
use knet_lib.TcpConnection.Sending.{send, send_in_loop, force_close, force_close_in_loop, dispatch}
use knet_lib.TcpConnection.Sound.{IsSound, stream, AtChannel, on_channel-Returns}

module _ (kernel : Kernel) (handlers : Handlers kernel) where
  open kernel use {watched}

  -- The connection that the close callback is given.
  pub record Closed (c d : Conn kernel) : Type 0 where
    pub closed : d.state ≡ disconnected
    pub unregistered : d.channel.pooling ≡ false
    pub unwatched : watched d.interest c.channel.fd ≡ none
    pub others : SameBut kernel c.channel.fd c.interest d.interest
    pub bytes_kept : stream kernel d ≡ stream kernel c
    pub same_revents : d.channel.revents ≡ c.channel.revents
    pub sound : IsSound kernel d

  Closed-with :
      (c : Conn kernel) (ch : Channel) (k : kernel.Interest)
      → IsSound kernel c
      → ch ≡ record c.channel { pooling = false }
      → watched k c.channel.fd ≡ none
      → SameBut kernel c.channel.fd c.interest k
      → Closed c (record c { state = disconnected; channel = ch; interest = k })
  Closed-with c ch k s e u o =
      subst
        (λ (x : Channel). Closed c (record c { state = disconnected; channel = x; interest = k }))
        (sym e)
        (record {
          closed = refl;
          unregistered = refl;
          unwatched = u;
          others = o;
          bytes_kept = refl;
          same_revents = refl;
          sound = record {
            input_valid = s.input_valid;
            output_valid = s.output_valid;
            mask = s.mask;
            unlisted = λ p. u;
            idle = s.idle;
            busy = s.busy;
            armed = λ w p. absurd (false≢true (sym p));
          };
        })

  -- `handleClose` on an open, sound connection makes one call, the close callback's, with a
  -- connection that is closed and that the kernel no longer watches.
  pub handle_close-Closed :
      (epoll : IsEpoll kernel) (c : Conn kernel)
      → IsSound kernel c
      → (is_connected c.state || is_disconnecting c.state) ≡ true
      → (d : Conn kernel) × Closed c d
        × (handle_close kernel handlers true c ≡ Channel.call handlers.close_callback d)
  unfolding handle_close
  handle_close-Closed epoll c s h =
      let ((ch, k), e, r) =
        Returns-ok _ (remove_channel kernel true c.channel c.interest)
          (remove_channel-Returns kernel epoll c.channel c.interest s.unlisted) in
      (
        record c { state = disconnected; channel = ch; interest = k },
        Closed-with c ch k s r.0 r.1 r.2,
        simp (h, e) refl,
      )

  -- A closed connection ignores its read and write events, and drops what is still sent, shut down
  -- or force-closed.
  pub closed_inert :
      (c : Conn kernel) (readv : List ℕ → ReadResult) (write : List ℕ → WriteResult)
      (bytes : List ℕ) (here : Bool)
      → c.state ≡ disconnected
      → (handle_read kernel handlers readv true c ≡ ok c)
        × (handle_write kernel handlers write true c ≡ ok c)
        × (send_in_loop kernel handlers write bytes true c ≡ ok c)
        × (send kernel handlers write bytes here c ≡ ok c)
        × (shutdown_in_loop kernel true c ≡ ok c)
        × (force_close_in_loop kernel handlers true c ≡ ok c)
        × (force_close kernel handlers here c ≡ ok c)
  unfolding handle_read handle_write send_in_loop send shutdown_in_loop force_close_in_loop
      force_close
  closed_inert c readv write bytes here e =
      (simp e refl, simp e refl, simp e refl, simp e refl, simp e refl, simp e refl, simp e refl)

  -- A close callback that leaves the connection closed and its events as they came.
  abbrev pub LeavesClosed : Type 0
  LeavesClosed =
      (d : Conn kernel)
      → d.state ≡ disconnected
      → Returns (λ e. (e.state ≡ disconnected) × (e.channel.revents ≡ d.channel.revents))
          (Channel.call handlers.close_callback d)

  handling :
      (c : Conn kernel)
      → IsSound kernel c
      → IsSound kernel (record c { channel = record c.channel { handling_events = true } })
  handling c s = record {
    input_valid = s.input_valid;
    output_valid = s.output_valid;
    mask = s.mask;
    unlisted = s.unlisted;
    idle = s.idle;
    busy = s.busy;
    armed = s.armed;
  }

  -- A second close stops at the assertion of `handleClose`.
  close_twice :
      (c : Conn kernel)
      → c.state ≡ disconnected
      → handle_error kernel handlers true c ≡ crash assertion
  unfolding handle_error handle_close
  close_twice c e = simp e refl

  -- EPOLLHUP and EPOLLERR together without EPOLLIN close an open connection twice: the process
  -- stops at the assertion of `handleClose`, where the close callback leaves the connection
  -- closed.
  pub hangup_with_error :
      (epoll : IsEpoll kernel) (c : Conn kernel) (readv : List ℕ → ReadResult)
      (write : List ℕ → WriteResult)
      → IsSound kernel c
      → LeavesClosed
      → (is_connected c.state || is_disconnecting c.state) ≡ true
      → has c.channel.revents epollhup ≡ true
      → has c.channel.revents epollin ≡ false
      → has c.channel.revents epollerr ≡ true
      → dispatch kernel handlers readv write true true c ≡ crash assertion
  unfolding dispatch Channel.handle_events Channel.handle_event_with_guard
  hangup_with_error epoll c readv write s leaves open_ hup input err =
      let c' : Conn kernel = record c { channel = record c.channel { handling_events = true } } in
      let (d, closed, e) = handle_close-Closed epoll c' (handling c s) open_ in
      let (d', e', left) =
        Returns-ok _ (Channel.call handlers.close_callback d) (leaves d closed.closed) in
      let again : has d'.channel.revents epollerr ≡ true =
        ap (λ r. has r epollerr) (left.1 ∙ closed.same_revents) ∙ err in
      simp (&&-false, hup, input, e, e', again, close_twice d' left.0) refl

-- `stopRead` on a closed connection whose channel asked for input and urgent data registers the
-- channel with the poller again.
pub stop_read_closed :
    (kernel : Kernel) (epoll : IsEpoll kernel) (c : Conn kernel)
    → IsSound kernel c
    → c.state ≡ disconnected
    → is_reading c.channel ≡ true
    → is_urgent c.channel ≡ true
    → Returns (λ d. (d.state ≡ disconnected) × (d.channel.pooling ≡ true)) (stop_read kernel true c)
unfolding stop_read
stop_read_closed kernel epoll c s closed reading urgent = rw reading (
    Returns-map
      (AtChannel kernel
        (Changed kernel c.channel c.interest false (is_urgent c.channel) (is_writing c.channel)) c)
      _ (on_channel kernel (disable_read kernel) true c)
      (on_channel-Returns kernel _ (disable_read kernel) c
        (disable_read-Changed kernel epoll c.channel c.interest s.mask s.unlisted (inr urgent)))
      (λ d ((ch, k), e, r). (
        ap (λ (x : Conn kernel). x.state) e ∙ closed,
        ap (λ (x : Conn kernel). x.channel.pooling) e
            ∙ r.pooling
            ∙ ap not (has-ne-zero _ epollpri (r.watches.urgent ∙ urgent)),
      )))
