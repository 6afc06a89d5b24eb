-- ===== src/TcpConnection/Drain.antt =====
-- TcpConnection: `handleWrite` empties the output buffer, and a half-close waits for it.
use knet_lib.Common.{
  ℕ, ◌≤◌, ◌<◌, ◌==◌, ◌≡◌, refl, sym, ap, ◌∙◌, inl, inr, Bool, true, false, List, [], ◌++◌,
  append_assoc, append-nil, arith, max, ltb, length, take, drop, take-append-drop, nil_of_length,
  Bool-cases, &&-false, lt→ltb, false≢true, if◌then◌else◌, Returns, Returns-bind, ◌>>=◌, ok,
}
use knet_lib.Sys.{WriteResult, wrote, write_failed, IsWrite, WriteResult-cases}
use knet_lib.Buffer.{Buffer, readable_bytes, contents, retrieve}
use knet_lib.Buffer.Valid.{IsValid, Holds, length-contents, retrieve-Returns}
use knet_lib.Channel.{Channel, is_reading, is_writing}
use knet_lib.Channel.Masks.{is_urgent}
use knet_lib.Epoll.{Kernel, IsEpoll, disable_write}
use knet_lib.Epoll.Changes.{Changed, Agrees-IsUnlisted, disable_write-Changed}
use knet_lib.TcpConnection.{
  Conn, Handlers, Task, is_disconnected, is_disconnecting, is_fault, on_channel, shutdown_in_loop,
}
use knet_lib.TcpConnection.Events.{write_finished, handle_write}
use knet_lib.TcpConnection.Sound.{IsSound, stream, AtChannel, on_channel-Returns, if_queued}

module _ (kernel : Kernel) where
  -- What write(2) has taken after it answered for the bytes that wait.
  abbrev pub taken : WriteResult → Conn kernel → List ℕ
  taken (wrote n) c = c.wire ++ take n (contents c.output_buffer)
  taken (write_failed errno) c = c.wire

  -- What `handleWrite` makes of `c`, with `wire` what write(2) has taken so far.
  pub record Drained (c : Conn kernel) (wire : List ℕ) (d : Conn kernel) : Type 0 where
    pub on_wire : d.wire ≡ wire
    pub sound : IsSound kernel d
    pub bytes_kept : stream kernel d ≡ stream kernel c
    pub same_state : d.state ≡ c.state
    pub same_input : d.input_buffer ≡ c.input_buffer
    pub room : d.output_buffer.writer_index ≤ max 8 c.output_buffer.writer_index
    pub shut_empty : c.wr_shut ≡ false → d.wr_shut ≡ true → contents d.output_buffer ≡ []
    pub closes : is_disconnecting c.state ≡ true → contents d.output_buffer ≡ [] → d.wr_shut ≡ true

  module _ (epoll : IsEpoll kernel) (handlers : Handlers kernel) where
    -- The channel stops waiting for room when the output buffer is empty.
    emptied :
        {c : Conn kernel} (output : Buffer) (wire : List ℕ) (r : Channel × kernel.Interest)
        (shut : Bool) (t : List Task)
        → IsSound kernel c
        → IsValid output
        → contents output ≡ []
        → wire ≡ stream kernel c
        → Changed kernel c.channel c.interest (is_reading c.channel) (is_urgent c.channel) false r
        → (is_disconnecting c.state ≡ true → shut ≡ true)
        → output.writer_index ≤ max 8 c.output_buffer.writer_index
        → Drained c wire (record c {
          channel = r.0;
          interest = r.1;
          output_buffer = output;
          wire = wire;
          wr_shut = shut;
          tasks = t;
        })
    emptied {c} output wire (ch, k) shut t s v empty e r closing far = record {
      sound = record {
        input_valid = s.input_valid;
        output_valid = v;
        mask = r.watches.is_mask;
        unlisted = Agrees-IsUnlisted kernel ch k r.agrees;
        idle = λ w. empty;
        busy = λ w. absurd (false≢true (sym r.watches.writes ∙ w));
        armed = λ w d. absurd (false≢true (sym r.watches.writes ∙ w));
      };
      on_wire = refl;
      bytes_kept = ap (λ bs. wire ++ bs) empty ∙ append-nil wire ∙ e;
      same_state = refl;
      same_input = refl;
      room = far;
      shut_empty = λ p q. empty;
      closes = λ p q. closing p;
    }

    write_finished-Drained :
        {c : Conn kernel} (output : Buffer) (wire : List ℕ)
        → IsSound kernel c
        → is_disconnected c.state ≡ false
        → is_writing c.channel ≡ true
        → IsValid output
        → contents output ≡ []
        → wire ≡ stream kernel c
        → output.writer_index ≤ max 8 c.output_buffer.writer_index
        → Returns
            (Drained c wire)
            (write_finished kernel handlers true (record c { output_buffer = output; wire = wire }))
    unfolding write_finished shutdown_in_loop
    write_finished-Drained {c} output wire s open_ w v empty e far =
        Returns-bind
          (AtChannel kernel
            (Changed kernel c.channel c.interest (is_reading c.channel) (is_urgent c.channel) false)
            (record c { output_buffer = output; wire = wire }))
          (Drained c wire)
          (on_channel kernel (disable_write kernel) true
            (record c { output_buffer = output; wire = wire }))
          _
          (on_channel-Returns kernel _ (disable_write kernel)
            (record c { output_buffer = output; wire = wire })
            (disable_write-Changed kernel epoll c.channel c.interest s.mask s.unlisted
              (s.armed w open_)))
          (λ d (r, q, changed). rw q (elim (Bool-cases (is_disconnecting c.state)) [
            | inl closing ↦
                simp (closing, open_, changed.watches.writes)
                  (if_queued kernel (Drained c wire) _ _ _
                    (λ t. emptied output wire r true t s v empty e changed (λ p. refl) far))
            | inr staying ↦ simp staying (
                if_queued kernel (Drained c wire) _ _ _ (λ t.
                  emptied output wire r c.wr_shut t s v empty e changed
                    (λ p. absurd (false≢true (sym staying ∙ p))) far))
          ]))

    -- Some bytes stay behind.
    partly-Drained :
        {c : Conn kernel} (output : Buffer) (wire : List ℕ)
        → IsSound kernel c
        → IsValid output
        → is_writing c.channel ≡ true
        → 0 < length (contents output)
        → wire ++ contents output ≡ stream kernel c
        → output.writer_index ≤ max 8 c.output_buffer.writer_index
        → Drained c wire (record c { output_buffer = output; wire = wire })
    partly-Drained {c} output wire s v w some_left e far = record {
      sound = record {
        input_valid = s.input_valid;
        output_valid = v;
        mask = s.mask;
        unlisted = s.unlisted;
        idle = λ q. absurd (false≢true (sym q ∙ w));
        busy = λ q. some_left;
        armed = s.armed;
      };
      on_wire = refl;
      bytes_kept = e;
      same_state = refl;
      same_input = refl;
      room = far;
      shut_empty = λ p q. absurd (false≢true (sym p ∙ q));
      closes = λ p q. absurd (omega (arith, ap length q));
    }

    module _ (write : List ℕ → WriteResult) {c : Conn kernel} (s : IsSound kernel c)
        (w : is_writing c.channel ≡ true) where
      waiting : ltb 0 (readable_bytes c.output_buffer) ≡ true
      waiting = lt→ltb _ _ (omega (arith, s.busy w, length-contents s.output_valid))

      -- The first `n` waiting bytes go from the buffer to the wire.
      took :
          (n : ℕ) (output : Buffer)
          → contents output ≡ drop n (contents c.output_buffer)
          → (c.wire ++ take n (contents c.output_buffer)) ++ contents output ≡ stream kernel c
      took n output e = simp (e, append_assoc, take-append-drop) refl

      wrote_some :
          is_disconnected c.state ≡ false
          → (n : ℕ) → n ≤ length (contents c.output_buffer)
          → Returns (Drained c (c.wire ++ take n (contents c.output_buffer))) (
              retrieve n c.output_buffer >>= λ output.
              (if readable_bytes output == 0
                then write_finished kernel handlers true (record c {
                  output_buffer = output;
                  wire = c.wire ++ take n (contents c.output_buffer);
                })
                else ok (record c {
                  output_buffer = output;
                  wire = c.wire ++ take n (contents c.output_buffer);
                })))
      wrote_some open_ n h =
          Returns-bind
            (Holds (drop n (contents c.output_buffer)) (max 8 c.output_buffer.writer_index))
            (Drained c (c.wire ++ take n (contents c.output_buffer))) (retrieve n c.output_buffer) _
            (retrieve-Returns n s.output_valid h)
            (λ output r. elim (Bool-cases (readable_bytes output == 0)) [
              | inl all ↦
                  (let empty =
                      nil_of_length (contents output) (ground (arith, length-contents r.0)) in
                    rw all (
                      write_finished-Drained output _ s open_ w r.0 empty
                        (sym (
                            ap (λ bs. (c.wire ++ take n (contents c.output_buffer)) ++ bs) empty
                            ∙ append-nil _)
                          ∙ took n output r.1)
                        r.2))
              | inr more ↦ rw more (
                  partly-Drained output _ s r.0 w (ground (arith, length-contents r.0))
                    (took n output r.1) r.2)
            ])

      -- `handleWrite` on an open, sound connection with bytes waiting, whose peer is not found
      -- gone, returns, keeps the connection sound and the stream of bytes; the half-close is made
      -- only once nothing waits, and is made then if it was asked for.
      pub handle_write-Returns :
          IsWrite write
          → is_disconnected c.state ≡ false
          → ((errno : ℕ)
              → write (contents c.output_buffer) ≡ write_failed errno
              → is_fault errno ≡ false)
          → Returns
              (Drained c (taken (write (contents c.output_buffer)) c))
              (handle_write kernel handlers write true c)
      unfolding handle_write
      handle_write-Returns io open_ sane =
          elim (WriteResult-cases (write (contents c.output_buffer))) [
            | inl (errno, e) ↦
                simp (open_, waiting, w, e, sane errno e, &&-false)
                  (partly-Drained c.output_buffer c.wire s s.output_valid w (s.busy w) refl
                    (omega arith))
            | inr (n, e) ↦ simp (open_, waiting, w, e) (wrote_some open_ n (io _ n e))
          ]
