-- ===== src/TcpClient/Session/Flushed.antt =====
-- TcpClient: `disconnect` loses no byte that the connection has accepted.
use knet_lib.Common.{
  ℕ, ◌≤◌, ◌≡◌, refl, sym, ap, ◌∙◌, Bool, true, false, Option, none, some, length, List, Bool-cases,
  inl, inr, Outcome, ok, ◌>>=◌, Returns, Returns-bind, Returns-map, subst, arith,
}
use knet_lib.Sys.{WriteResult}
use knet_lib.Buffer.{contents}
use knet_lib.Channel.{is_writing}
use knet_lib.Epoll.{Kernel, IsEpoll}
use knet_lib.TcpConnection.{
  Conn, Handlers, connected, disconnecting, is_connected, is_disconnected, is_disconnecting,
  shutdown, shutdown_exchange, shutdown_in_loop,
}
use knet_lib.TcpConnection.Sound.{IsSound, stream}
use knet_lib.TcpConnection.Stream.Emptied.{
  IsGiving, IsShutWhenEmpty, Emptied, rounds, rounds-Emptied,
}
use knet_lib.TcpClient.Session.{
  Session, with_connection, shut_open, disconnect, run_queued, disconnected_by,
}

module _ (kernel : Kernel) where
  -- The session has a connection with the property.
  abbrev Has : (Conn kernel → Type 0) → ℕ → Session kernel → Type 0
  Has P q s = (d : Conn kernel) × (s.connection ≡ some d) × P d × (s.queued ≡ q)

  -- There is a connection, and the call on it returns so.
  abbrev Found :
      (Conn kernel → Type 0) → (Conn kernel → Outcome (Conn kernel)) → Option (Conn kernel) → Type 0
  Found P f none = ⊥
  Found P f (some c) = Returns P (f c)

  -- What a call on the connection returns, the session has.
  Found-Has :
      (P : Conn kernel → Type 0) (f : Conn kernel → Outcome (Conn kernel)) (flag : Bool)
      (o : Option (Conn kernel)) (q : ℕ)
      → Found P f o
      → Returns
          (Has P q)
          (with_connection kernel f (record { connected_flag = flag; connection = o; queued = q }))
  Found-Has P f flag none q h = absurd h
  Found-Has P f flag (some c) q h = Returns-bind P (Has P q) (f c) _ h (λ d p. (d, refl, p, refl))

  with_connection-Has :
      (P : Conn kernel → Type 0) (f : Conn kernel → Outcome (Conn kernel)) (c : Conn kernel)
      (s : Session kernel)
      → s.connection ≡ some c
      → Returns P (f c)
      → Returns (Has P s.queued) (with_connection kernel f s)
  with_connection-Has P f c s e h =
      Found-Has P f s.connected_flag s.connection s.queued (subst (Found P f) (sym e) h)

  module _ (handlers : Handlers kernel) (write : List ℕ → WriteResult) where
    -- Rounds of the loop that report room to write on the connection.
    abbrev pub on_room : ℕ → Session kernel → Outcome (Session kernel)
    on_room n s = with_connection kernel (rounds kernel handlers write n) s

    -- All that `c` had accepted is on the wire, and its half-close is made.
    pub record Flushed (c : Conn kernel) (s : Session kernel) : Type 0 where
      pub last : Conn kernel
      pub still : s.connection ≡ some last
      pub all_out : last.wire ≡ stream kernel c
      pub half_closed : last.wr_shut ≡ true

    -- What the shutdown leaves: nothing but the state and the half-close changes.
    record Shut (c d : Conn kernel) : Type 0 where
      sound : IsSound kernel d
      state : d.state ≡ disconnecting
      when_empty : IsShutWhenEmpty kernel handlers write d
      same_bytes : stream kernel d ≡ stream kernel c
      same_output : contents d.output_buffer ≡ contents c.output_buffer

    IsSound-shut :
        (c : Conn kernel) (shut : Bool)
        → IsSound kernel c
        → c.state ≡ connected
        → IsSound kernel (record c { state = disconnecting; wr_shut = shut })
    IsSound-shut c shut s e = record {
      input_valid = s.input_valid;
      output_valid = s.output_valid;
      mask = s.mask;
      unlisted = s.unlisted;
      idle = s.idle;
      busy = s.busy;
      armed = λ w p. s.armed w (ap is_disconnected e);
    }

    shut_open-Shut :
        (c : Conn kernel)
        → IsSound kernel c
        → c.state ≡ connected
        → Returns (Shut c) (shut_open kernel c)
    unfolding shutdown shutdown_exchange shutdown_in_loop
    shut_open-Shut c s e =
        let open_ : is_disconnected c.state ≡ false = ap is_disconnected e in
        let able : is_connected c.state ≡ true = ap is_connected e in
        elim (Bool-cases (is_writing c.channel)) [
          | inl w ↦
              simp (open_, able, w)
                (record {
                  sound = IsSound-shut c c.wr_shut s e;
                  state = refl;
                  when_empty = λ p q. absurd (omega (arith, ap length q, s.busy w));
                  same_bytes = refl;
                  same_output = refl;
                })
          | inr w ↦
              simp (open_, able, w)
                (record {
                  sound = IsSound-shut c true s e;
                  state = refl;
                  when_empty = λ p q. refl;
                  same_bytes = refl;
                  same_output = refl;
                })
        ]

    ShutSession : Conn kernel → ℕ → Session kernel → Type 0
    ShutSession c q s = Has (Shut c) q s

    shut_now :
        (c : Conn kernel) (s : Session kernel)
        → s.connection ≡ some c
        → IsSound kernel c
        → c.state ≡ connected
        → Returns (ShutSession c s.queued) (with_connection kernel (shut_open kernel) s)
    unfolding ShutSession
    shut_now c s e sound open_ =
        with_connection-Has (Shut c) (shut_open kernel) c s e (shut_open-Shut c sound open_)

    run_none :
        (c : Conn kernel) (s : Session kernel)
        → ShutSession c 0 s
        → Returns (ShutSession c 0) (run_queued kernel s.queued s)
    unfolding ShutSession run_queued
    run_none c s (d, e, shut, q) = rw (q, run_queued) (d, e, shut, refl)

    queued_once :
        (flag : Bool) (c : Conn kernel)
        → is_disconnected c.state ≡ false
        → disconnect kernel false
            (record { connected_flag = flag; connection = some c; queued = 0 })
          ≡ ok (record { connected_flag = flag; connection = some c; queued = 1 })
    unfolding disconnect
    queued_once flag c e = simp e refl

    shut_later :
        (flag : Bool) (c : Conn kernel)
        → IsSound kernel c
        → c.state ≡ connected
        → Returns (ShutSession c 0) (
            disconnected_by kernel false
              (record { connected_flag = flag; connection = some c; queued = 0 }))
    unfolding disconnect run_queued ShutSession
    shut_later flag c sound open_ =
        let s : Session kernel = record {
          connected_flag = flag;
          connection = some c;
          queued = 1;
        } in
        subst
          (λ (m : Outcome (Session kernel)).
            Returns (ShutSession c 0) (m >>= λ s'. run_queued kernel s'.queued s'))
          (sym (queued_once flag c (ap is_disconnected open_)))
          (Returns-bind (ShutSession c 1) (ShutSession c 0)
            (with_connection kernel (shut_open kernel) s) (run_queued kernel 0)
            (shut_now c s refl sound open_) (λ s' (d, e, shut, q). (d, e, shut, refl)))

    -- However `disconnect` is called, the loop shuts the connection down.
    shut_by :
        (here : Bool) (c : Conn kernel) (s : Session kernel)
        → s.connection ≡ some c
        → s.queued ≡ 0
        → IsSound kernel c
        → c.state ≡ connected
        → Returns (ShutSession c 0) (disconnected_by kernel here s)
    unfolding disconnect run_queued
    shut_by true c s e none_queued sound open_ =
        Returns-bind (ShutSession c s.queued) (ShutSession c 0)
          (with_connection kernel (shut_open kernel) s) _ (shut_now c s e sound open_)
          (λ s' h. run_none c s' (subst (λ q. ShutSession c q s') none_queued h))
    shut_by false c s e none_queued sound open_ =
        subst
          (λ o.
            Returns (ShutSession c 0) (disconnected_by kernel false (record s { connection = o })))
          (sym e)
          (subst
            (λ q.
              Returns (ShutSession c 0)
                (disconnected_by kernel false (record s { connection = some c; queued = q })))
            (sym none_queued) (shut_later s.connected_flag c sound open_))

    flushed :
        (epoll : IsEpoll kernel)
        → IsGiving write
        → (n : ℕ) (c : Conn kernel) (s : Session kernel) → length (contents c.output_buffer) ≤ n
        → ShutSession c 0 s
        → Returns (Flushed c) (on_room n s)
    unfolding ShutSession
    flushed epoll giving n c s small (d, e, shut, q) =
        Returns-map (Has (Emptied kernel handlers write d) s.queued) (Flushed c) (on_room n s)
          (with_connection-Has (Emptied kernel handlers write d) (rounds kernel handlers write n) d
            s e
            (rounds-Emptied kernel handlers write epoll giving n shut.sound
              (ap is_disconnected shut.state) shut.when_empty
              (omega (arith, small, ap length shut.same_output))))
          (λ s' (last, still, emptied, same). record {
            last = last;
            still = still;
            all_out = emptied.all_out ∙ shut.same_bytes;
            half_closed = emptied.shut (ap is_disconnecting shut.state);
          })

    -- `disconnect` of a client whose connection is sound and in the connected state, with no
    -- earlier `disconnect` queued, called in the loop's thread or in another, whose queued call
    -- the loop then runs, returns, and after as many rounds with room to write as bytes were
    -- waiting, where write(2) takes at least one byte of what it is given, all bytes that the
    -- connection had accepted are on the wire and its half-close is made; the client still has the
    -- connection.
    pub disconnect_flushes :
        (epoll : IsEpoll kernel)
        → IsGiving write
        → (here : Bool) (n : ℕ) (c : Conn kernel) (s : Session kernel) → s.connection ≡ some c
        → s.queued ≡ 0
        → IsSound kernel c
        → c.state ≡ connected
        → length (contents c.output_buffer) ≤ n
        → Returns (Flushed c) (disconnected_by kernel here s >>= on_room n)
    disconnect_flushes epoll giving here n c s e q sound open_ small =
        Returns-bind (ShutSession c 0) (Flushed c) (disconnected_by kernel here s) (on_room n)
          (shut_by here c s e q sound open_) (λ s' shut. flushed epoll giving n c s' small shut)
