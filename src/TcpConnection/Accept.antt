-- ===== src/TcpConnection/Accept.antt =====
-- TcpConnection: `sendInLoop` loses, repeats and reorders no byte.
use knet_lib.Common.{
  ℕ, ◌+◌, ◌-◌, ◌≤◌, ◌^◌, ◌<◌, ◌==◌, ◌≡◌, ◌∷◌, eq→==, refl, sym, ap, ◌∙◌, subst, inl, inr, Bool,
  true, false, not, List, [], ◌++◌, append_assoc, append-nil, arith, ltb, length, take, drop,
  take_all, length-drop, take-append-drop, if◌then◌else◌, Bool-cases, &&-false, ltb→lt, false≢true,
  length-append, Returns, Returns-map, Returns-bind,
}
use knet_lib.Words.{sub_size}
use knet_lib.Sys.{WriteResult, wrote, write_failed, IsWrite, WriteResult-cases}
use knet_lib.Memory.{slice, length-slice}
use knet_lib.Buffer.{Buffer, max_size, readable_bytes, contents, append}
use knet_lib.Buffer.Valid.{IsValid, Holds, length-contents, append-Returns}
use knet_lib.Channel.{is_writing}
use knet_lib.Channel.Masks.{has-ne-zero}
use knet_lib.Epoll.{Kernel, IsEpoll, enable_write}
use knet_lib.Epoll.Changes.{Agrees-IsUnlisted, enable_write-Changed}
use knet_lib.TcpConnection.{
  Conn, Handlers, Task, run_write_complete, is_disconnected, is_fault, on_channel, queue_in_loop,
}
use knet_lib.TcpConnection.Sending.{note_high_water, send_rest, send_in_loop}
use knet_lib.TcpConnection.Sound.{IsSound, Accepted, stream, tasks_if, IsSound-wire}

module _ (kernel : Kernel) (handlers : Handlers kernel) where
  -- The high-water mark callback is only queued.
  note_high_water-tasks :
      (remain : ℕ) (c : Conn kernel)
      → (t : List Task) × (note_high_water kernel handlers remain c ≡ record c { tasks = t })
  unfolding note_high_water
  note_high_water-tasks remain c = tasks_if kernel _ _ c

  module _ (epoll : IsEpoll kernel) where
    -- Bytes in the output buffer, and the channel told to wait for room to write.
    arm-Returns :
        {c : Conn kernel} (output : Buffer) (rest : List ℕ) (t : List Task)
        → IsSound kernel c
        → IsValid output
        → contents output ≡ contents c.output_buffer ++ rest
        → 0 < length rest
        → output.writer_index ≤ c.output_buffer.writer_index + length rest
        → Returns (Accepted kernel c rest) (
            on_channel kernel
              (enable_write kernel)
              true
              (record c { output_buffer = output; tasks = t }))
    arm-Returns {c} output rest t s v e l far =
        Returns-bind _ (Accepted kernel c rest) (enable_write kernel true c.channel c.interest) _
          (enable_write-Changed kernel epoll c.channel c.interest s.mask s.unlisted)
          (λ (ch, k) r. record {
            sound = record {
              input_valid = s.input_valid;
              output_valid = v;
              mask = r.watches.is_mask;
              unlisted = Agrees-IsUnlisted kernel ch k r.agrees;
              idle = λ w. absurd (false≢true (sym w ∙ r.watches.writes));
              busy = λ w. omega (arith, ap length e, length-append (contents c.output_buffer) rest);
              armed = λ w d. r.pooling ∙ ap not (has-ne-zero _ _ w);
            };
            bytes_kept = ap (λ bs. c.wire ++ bs) e ∙ sym (append_assoc c.wire _ rest);
            room = far;
            same = record {
              same_state = refl;
              same_input = refl;
              same_mark = refl;
              same_fd = r.same_fd;
            };
          })

    -- The bytes that write(2) left are appended to the output buffer.
    send_rest-Returns :
        {c : Conn kernel} (bytes : List ℕ) (n remain : ℕ)
        → IsSound kernel c
        → n + remain ≤ length bytes
        → c.output_buffer.writer_index + remain ≤ max_size
        → Returns
            (Accepted kernel c (slice bytes n remain))
            (send_rest kernel handlers bytes n remain true c)
    unfolding send_rest
    send_rest-Returns {c} bytes n remain s h small = elim (Bool-cases (ltb 0 remain)) [
      | inr none_left ↦ rw none_left (nothing_left (ground arith))
      | inl some_left ↦
          (let (t, e) = note_high_water-tasks remain c in
            let size = length-slice bytes n remain h in
            rw (some_left, e)
              (Returns-bind
                (Holds (contents c.output_buffer ++ slice bytes n remain)
                  (c.output_buffer.writer_index + length (slice bytes n remain)))
                (Accepted kernel c (slice bytes n remain))
                (append (slice bytes n remain) c.output_buffer) _
                (append-Returns (slice bytes n remain) s.output_valid (omega (arith, size)))
                (λ output r.
                  arm-Returns output (slice bytes n remain) t s r.0 r.1
                    (omega (arith, size, ltb→lt _ _ some_left)) r.2)))
    ]
      where
        nothing_left : remain ≡ 0 → Accepted kernel c (slice bytes n remain) c
        nothing_left z = record {
          sound = s;
          bytes_kept =
              sym (
                ap (λ r. stream kernel c ++ take r (drop n bytes)) z
                ∙ append-nil (stream kernel c));
          room = omega arith;
          same = record { same_state = refl; same_input = refl; same_mark = refl; same_fd = refl };
        }

    all_rest : (bytes : List ℕ) (n m : ℕ) → m ≡ length bytes - n → slice bytes n m ≡ drop n bytes
    all_rest bytes n m e = take_all m (drop n bytes) (omega (arith, length-drop n bytes))

    -- The whole of `bytes` goes behind what waits.
    queue_all-Returns :
        {c : Conn kernel} (bytes : List ℕ)
        → IsSound kernel c
        → c.output_buffer.writer_index + length bytes ≤ max_size
        → Returns
            (Accepted kernel c bytes)
            (send_rest kernel handlers bytes 0 (length bytes) true c)
    queue_all-Returns {c} bytes s small =
        subst
          (λ bs.
            Returns (Accepted kernel c bs)
              (send_rest kernel handlers bytes 0 (length bytes) true c))
          (all_rest bytes 0 (length bytes) (omega arith))
          (send_rest-Returns bytes 0 (length bytes) s (omega arith) small)

    -- write(2) took the first `n` bytes of a connection with an empty output buffer.
    partly_written :
        {c d : Conn kernel} (bytes : List ℕ) (n m : ℕ) (t : List Task)
        → contents c.output_buffer ≡ []
        → m ≡ length bytes - n
        → n ≤ length bytes
        → Accepted kernel
            (record c { wire = c.wire ++ take n bytes; tasks = t })
            (slice bytes n m)
            d
        → Accepted kernel c bytes d
    partly_written {c} {d} bytes n m t empty e le a = record {
      sound = a.sound;
      bytes_kept =
          a.bytes_kept
          ∙ simp (empty, append-nil, append_assoc, all_rest bytes n m e, take-append-drop) refl;
      room = omega (arith, a.room, length-slice bytes n m (omega (arith, e, le)));
      same = record {
        same_state = a.same.same_state;
        same_input = a.same.same_input;
        same_mark = a.same.same_mark;
        same_fd = a.same.same_fd;
      };
    }

    module _ (write : List ℕ → WriteResult) {c : Conn kernel} (bytes : List ℕ)
        (s : IsSound kernel c) where
      empty-readable : is_writing c.channel ≡ false → (readable_bytes c.output_buffer == 0) ≡ true
      empty-readable w =
          eq→== _ _ (omega (arith, ap length (s.idle w), length-contents s.output_valid))

      wrote_some :
          IsWrite write
          → is_writing c.channel ≡ false
          → c.output_buffer.writer_index + length bytes ≤ max_size
          → length bytes < 2 ^ 64
          → (n : ℕ) → write bytes ≡ wrote n
          → (b : Bool)
          → Returns (Accepted kernel c bytes) (
              send_rest kernel handlers bytes n (sub_size (length bytes) n) true (
                if b
                then queue_in_loop kernel run_write_complete
                    (record c { wire = c.wire ++ take n bytes })
                else record c { wire = c.wire ++ take n bytes }))
      wrote_some io w small fits n e b =
          let took : n ≤ length bytes = io bytes n e in
          let m : sub_size (length bytes) n ≡ length bytes - n = omega arith in
          let (t, q) =
            tasks_if kernel b (c.tasks ++ run_write_complete ∷ [])
              (record c { wire = c.wire ++ take n bytes }) in
          rw (q, m)
            (Returns-map _ (Accepted kernel c bytes) _
              (send_rest-Returns bytes n (length bytes - n)
                (IsSound-wire kernel (c.wire ++ take n bytes) t s) (omega arith) (omega arith))
              (λ d a. partly_written bytes n (length bytes - n) t (s.idle w) refl took a))

      -- `sendInLoop` on an open, sound connection whose peer is not found gone returns, keeps the
      -- connection sound, and accepts every byte: what write(2) took followed by what waits in the
      -- output buffer is the stream of all bytes sent.
      pub send_in_loop-Returns :
          IsWrite write
          → is_disconnected c.state ≡ false
          → c.output_buffer.writer_index + length bytes ≤ max_size
          → ((errno : ℕ)
              → is_writing c.channel ≡ false
              → write bytes ≡ write_failed errno
              → is_fault errno ≡ false)
          → Returns (Accepted kernel c bytes) (send_in_loop kernel handlers write bytes true c)
      unfolding send_in_loop
      send_in_loop-Returns io open_ small sane = elim (Bool-cases (is_writing c.channel)) [
        | inl waiting ↦ simp (open_, waiting) (queue_all-Returns bytes s small)
        | inr free ↦ elim (WriteResult-cases (write bytes)) [
          | inl (errno, e) ↦
              simp (open_, free, empty-readable free, e, sane errno free e, &&-false)
                (queue_all-Returns bytes s small)
          | inr (n, e) ↦
              simp (open_, free, empty-readable free, e)
                (wrote_some io free small (omega arith) n e _)
        ]
      ]
