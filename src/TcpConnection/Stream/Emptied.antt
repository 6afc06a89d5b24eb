-- ===== src/TcpConnection/Stream/Emptied.antt =====
-- TcpConnection: the output buffer empties, and a half-close is made, while write(2) makes progress.
use knet_lib.Common.{
  ℕ, zero, suc, ◌≤◌, ◌<◌, ◌≡◌, sym, ap, ◌∙◌, true, false, List, [], ◌++◌, append-nil, arith, length,
  length-append, length-take, take, Bool-cases, inl, inr, Outcome, ok, ◌>>=◌, Returns, Returns-bind,
  Returns-map,
}
use knet_lib.Sys.{WriteResult, wrote, write_failed, IsWrite}
use knet_lib.Buffer.{contents}
use knet_lib.Channel.{is_writing}
use knet_lib.Epoll.{Kernel, IsEpoll}
use knet_lib.TcpConnection.{Conn, Handlers, is_disconnected, is_disconnecting}
use knet_lib.TcpConnection.Events.{handle_write}
use knet_lib.TcpConnection.Sound.{IsSound, stream}
use knet_lib.TcpConnection.Drain.{Drained, taken, handle_write-Returns}
use knet_lib.TcpConnection.Stream.{writable}

-- write(2) takes at least one of the bytes that it is given, and no more than these.
abbrev pub IsGiving : (List ℕ → WriteResult) → Type 0
IsGiving write =
    IsWrite write
    × ((bytes : List ℕ) → 0 < length bytes → (n : ℕ) × (write bytes ≡ wrote n) × (0 < n))

module _ (kernel : Kernel) (handlers : Handlers kernel) (write : List ℕ → WriteResult) where
  -- So many rounds of the loop that report room to write, where the channel asks for it.
  abbrev pub rounds : ℕ → Conn kernel → Outcome (Conn kernel)
  rounds zero c = ok c
  rounds (suc n) c = writable kernel handlers write c >>= rounds n

  -- A half-close that was asked for is made when nothing waits.
  abbrev pub IsShutWhenEmpty : Conn kernel → Type 0
  IsShutWhenEmpty c =
      is_disconnecting c.state ≡ true → contents c.output_buffer ≡ [] → c.wr_shut ≡ true

  -- All that `c` had accepted is on the wire.
  pub record Emptied (c d : Conn kernel) : Type 0 where
    pub sound : IsSound kernel d
    pub all_out : d.wire ≡ stream kernel c
    pub nothing_waits : contents d.output_buffer ≡ []
    pub at_rest : is_writing d.channel ≡ false
    pub shut : is_disconnecting c.state ≡ true → d.wr_shut ≡ true

  -- What one round leaves for the next.
  record Advanced (c d : Conn kernel) : Type 0 where
    sound : IsSound kernel d
    kept : stream kernel d ≡ stream kernel c
    state : d.state ≡ c.state
    shut : IsShutWhenEmpty d
    fewer : length (contents d.output_buffer) < length (contents c.output_buffer)

  already :
      {c : Conn kernel}
      → IsSound kernel c
      → IsShutWhenEmpty c
      → is_writing c.channel ≡ false
      → Emptied c c
  already {c} s h w = record {
    sound = s;
    all_out = sym (ap (λ bs. c.wire ++ bs) (s.idle w) ∙ append-nil c.wire);
    nothing_waits = s.idle w;
    at_rest = w;
    shut = λ p. h p (s.idle w);
  }

  module _ (epoll : IsEpoll kernel) (giving : IsGiving write) where
    advance :
        {c : Conn kernel}
        → IsSound kernel c
        → is_disconnected c.state ≡ false
        → is_writing c.channel ≡ true
        → Returns (Advanced c) (handle_write kernel handlers write true c)
    advance {c} s open_ w =
        let (n, e, some_) = giving.1 (contents c.output_buffer) (s.busy w) in
        Returns-map (Drained kernel c (taken kernel (write (contents c.output_buffer)) c))
          (Advanced c) _
          (handle_write-Returns kernel epoll handlers write s w giving.0 open_
            (λ errno f. absurd (not_both (sym e ∙ f))))
          (λ d a.
            let out : d.wire ≡ c.wire ++ take n (contents c.output_buffer) =
              a.on_wire ∙ ap (λ r. taken kernel r c) e in
            record {
              sound = a.sound;
              kept = a.bytes_kept;
              state = a.same_state;
              shut = λ p q. a.closes (ap is_disconnecting (sym a.same_state) ∙ p) q;
              fewer = omega (
                arith,
                ap length a.bytes_kept,
                ap length out,
                length-append c.wire (take n (contents c.output_buffer)),
                length-append d.wire (contents d.output_buffer),
                length-append c.wire (contents c.output_buffer),
                length-take n (contents c.output_buffer),
                s.busy w,
              );
            })
      where
        not_both : {n errno : ℕ} → ¬ (wrote n ≡ write_failed errno)
        not_both h = cc

    from_next : {c d e : Conn kernel} → Advanced c d → Emptied d e → Emptied c e
    from_next a b = record {
      sound = b.sound;
      all_out = b.all_out ∙ a.kept;
      nothing_waits = b.nothing_waits;
      at_rest = b.at_rest;
      shut = λ p. b.shut (ap is_disconnecting a.state ∙ p);
    }

    -- If write(2) takes at least one byte of what it is given, as many rounds with room to write
    -- as there are bytes waiting empty the output buffer of an open, sound connection: all bytes
    -- that it had accepted are on the wire, the channel no longer asks for room, and the
    -- half-close is made if it was asked for. If the connection is disconnecting with nothing
    -- waiting at the start, its half-close must be made already: no `shutdownInLoop` is queued
    -- still.
    pub rounds-Emptied :
        (n : ℕ) {c : Conn kernel}
        → IsSound kernel c
        → is_disconnected c.state ≡ false
        → IsShutWhenEmpty c
        → length (contents c.output_buffer) ≤ n
        → Returns (Emptied c) (rounds n c)
    rounds-Emptied zero {c} s open_ h le = elim (Bool-cases (is_writing c.channel)) [
      | inl w ↦ absurd (omega (arith, s.busy w, le))
      | inr w ↦ already s h w
    ]
    rounds-Emptied (suc n) {c} s open_ h le = elim (Bool-cases (is_writing c.channel)) [
      | inl w ↦ rw w (
          Returns-bind (Advanced c) (Emptied c) (handle_write kernel handlers write true c)
            (rounds n) (advance s open_ w)
            (λ d a.
              Returns-map (Emptied d) (Emptied c) (rounds n d)
                (rounds-Emptied n {c = d} a.sound (ap is_disconnected a.state ∙ open_) a.shut
                  (omega (arith, a.fewer, le)))
                (λ e b. from_next a b)))
      | inr w ↦ rw w (rounds-Emptied n s open_ h (omega (arith, ap length (s.idle w))))
    ]
