-- ===== src/TcpConnection/Stream.antt =====
-- TcpConnection: what a connection sends in the loop's thread over many calls, tasks and events.
pub mod Emptied
mod Tests
use knet_lib.Common.{
  ℕ, ◌+◌, ◌≤◌, ◌≡◌, refl, sym, ap, ◌∙◌, Bool, true, false, not, List, [], ◌∷◌, ◌++◌, append_assoc,
  append-nil, arith, max, length, length-append, if◌then◌else◌, Bool-cases, inl, inr, Outcome, ok,
  ◌>>=◌, Returns, Returns-bind, Returns-map,
}
use knet_lib.Sys.{WriteResult, write_failed, IsWrite}
use knet_lib.Buffer.{Buffer, max_size, contents}
use knet_lib.Channel.{is_writing}
use knet_lib.Epoll.{Kernel, IsEpoll}
use knet_lib.TcpConnection.{State, Conn, Handlers, is_connected, is_disconnected, is_fault}
use knet_lib.TcpConnection.Events.{handle_write}
use knet_lib.TcpConnection.Sending.{send_in_loop, send}
use knet_lib.TcpConnection.Sound.{IsSound, Accepted, stream}
use knet_lib.TcpConnection.Accept.{send_in_loop-Returns}
use knet_lib.TcpConnection.Drain.{Drained, handle_write-Returns}

-- A call of `send`, a queued send that the loop runs, and the event that there is room to write,
-- each with the answer of write(2).
pub data SendStep : Type 0 where
  calls_send runs_send : (List ℕ → WriteResult) → List ℕ → SendStep
  has_room : (List ℕ → WriteResult) → SendStep

-- write(2) takes no more than it is given, and does not find the peer gone.
pub record IsSteady (write : List ℕ → WriteResult) : Type 0 where
  pub within : IsWrite write
  pub no_fault :
      (bytes : List ℕ) (errno : ℕ) → write bytes ≡ write_failed errno → is_fault errno ≡ false

abbrev pub answer : SendStep → List ℕ → WriteResult
answer (calls_send write bytes) = write
answer (runs_send write bytes) = write
answer (has_room write) = write

abbrev pub AllSteady : List SendStep → Type 0
AllSteady [] = Unit
AllSteady (t ∷ ts) = IsSteady (answer t) × AllSteady ts

-- The bytes that the turns hand over, in order. `send` takes them only while the state is connected.
abbrev pub handed : State → SendStep → List ℕ
handed state (calls_send write bytes) = if is_connected state then bytes else []
handed state (runs_send write bytes) = bytes
handed state (has_room write) = []

abbrev pub handed_all : State → List SendStep → List ℕ
handed_all state [] = []
handed_all state (t ∷ ts) = handed state t ++ handed_all state ts

module _ (kernel : Kernel) (handlers : Handlers kernel) where
  -- The poller reports room to write only while the channel asks for it.
  abbrev pub writable : (List ℕ → WriteResult) → Conn kernel → Outcome (Conn kernel)
  writable write c =
      if is_writing c.channel then handle_write kernel handlers write true c else ok c

  abbrev pub take_turn : SendStep → Conn kernel → Outcome (Conn kernel)
  take_turn (calls_send write bytes) c = send kernel handlers write bytes true c
  take_turn (runs_send write bytes) c = send_in_loop kernel handlers write bytes true c
  take_turn (has_room write) c = writable write c

  abbrev pub take_turns : List SendStep → Conn kernel → Outcome (Conn kernel)
  take_turns [] c = ok c
  take_turns (t ∷ ts) c = take_turn t c >>= take_turns ts

  -- A sound connection that has carried `bytes` behind what `c` had accepted.
  pub record Carried (c : Conn kernel) (bytes : List ℕ) (d : Conn kernel) : Type 0 where
    pub sound : IsSound kernel d
    pub bytes_kept : stream kernel d ≡ stream kernel c ++ bytes
    pub same_state : d.state ≡ c.state
    pub same_input : d.input_buffer ≡ c.input_buffer
    pub room : d.output_buffer.writer_index ≤ max 8 c.output_buffer.writer_index + length bytes

  unchanged : {c : Conn kernel} → IsSound kernel c → Carried c [] c
  unchanged {c} s = record {
    sound = s;
    bytes_kept = sym (append-nil (stream kernel c));
    same_state = refl;
    same_input = refl;
    room = omega arith;
  }

  Accepted-Carried :
      {c d : Conn kernel} (bytes : List ℕ) → Accepted kernel c bytes d → Carried c bytes d
  Accepted-Carried bytes a = record {
    sound = a.sound;
    bytes_kept = a.bytes_kept;
    same_state = a.same.same_state;
    same_input = a.same.same_input;
    room = omega (arith, a.room);
  }

  Drained-Carried : {c d : Conn kernel} (wire : List ℕ) → Drained kernel c wire d → Carried c [] d
  Drained-Carried {c} wire a = record {
    sound = a.sound;
    bytes_kept = a.bytes_kept ∙ sym (append-nil (stream kernel c));
    same_state = a.same_state;
    same_input = a.same_input;
    room = omega (arith, a.room);
  }

  one_after :
      {c d e : Conn kernel} (xs ys : List ℕ)
      → Carried c xs d
      → Carried d ys e
      → Carried c (xs ++ ys) e
  one_after {c} xs ys a b = record {
    sound = b.sound;
    bytes_kept =
        b.bytes_kept ∙ ap (λ bs. bs ++ ys) a.bytes_kept ∙ append_assoc (stream kernel c) xs ys;
    same_state = b.same_state ∙ a.same_state;
    same_input = b.same_input ∙ a.same_input;
    room = omega (arith, a.room, b.room, length-append xs ys);
  }

  module _ (epoll : IsEpoll kernel) where
    pub runs_send-Carried :
        (write : List ℕ → WriteResult) (bytes : List ℕ) {c : Conn kernel}
        → IsSteady write
        → IsSound kernel c
        → is_disconnected c.state ≡ false
        → c.output_buffer.writer_index + length bytes ≤ max_size
        → Returns (Carried c bytes) (send_in_loop kernel handlers write bytes true c)
    runs_send-Carried write bytes {c} steady s open_ fits =
        Returns-map (Accepted kernel c bytes) (Carried c bytes) _
          (send_in_loop-Returns kernel handlers epoll write bytes s steady.within open_ fits
            (λ errno free e. steady.no_fault bytes errno e))
          (λ d a. Accepted-Carried bytes a)

    pub writable-Drained :
        (write : List ℕ → WriteResult) {c : Conn kernel}
        → IsSteady write
        → IsSound kernel c
        → is_disconnected c.state ≡ false
        → Returns (Carried c []) (writable write c)
    writable-Drained write {c} steady s open_ = elim (Bool-cases (is_writing c.channel)) [
      | inl w ↦ rw w (
          Returns-map _ (Carried c []) (handle_write kernel handlers write true c)
            (handle_write-Returns kernel epoll handlers write s w steady.within open_
              (λ errno e. steady.no_fault (contents c.output_buffer) errno e))
            (λ d a. Drained-Carried _ a))
      | inr w ↦ rw w (unchanged s)
    ]

    take_turn-Carried :
        (t : SendStep) {c : Conn kernel}
        → IsSteady (answer t)
        → IsSound kernel c
        → is_disconnected c.state ≡ false
        → c.output_buffer.writer_index + length (handed c.state t) ≤ max_size
        → Returns (Carried c (handed c.state t)) (take_turn t c)
    unfolding send
    take_turn-Carried (calls_send write bytes) {c} steady s open_ fits =
        elim (Bool-cases (is_connected c.state)) [
          | inl t ↦ simp t (runs_send-Carried write bytes steady s open_ (simp t at fits))
          | inr f ↦ simp f (unchanged s)
        ]
    take_turn-Carried (runs_send write bytes) steady s open_ fits =
        runs_send-Carried write bytes steady s open_ fits
    take_turn-Carried (has_room write) steady s open_ fits = writable-Drained write steady s open_

    -- Over any sequence of calls of `send` in the loop's thread, queued sends that the loop runs
    -- and events that report room to write, on an open, sound connection whose peer is never found
    -- gone, no byte is lost, repeated or reordered: every step returns, the connection stays
    -- sound, and what write(2) took followed by what waits in the output buffer grows by just the
    -- bytes that were handed over, in order, where `send` hands over nothing unless the connection
    -- is connected. The bytes fit the vector of the buffer.
    pub take_turns-Carried :
        (ts : List SendStep) {c : Conn kernel}
        → AllSteady ts
        → IsSound kernel c
        → is_disconnected c.state ≡ false
        → max 8 c.output_buffer.writer_index + length (handed_all c.state ts) ≤ max_size
        → Returns (Carried c (handed_all c.state ts)) (take_turns ts c)
    take_turns-Carried [] all s open_ fits = unchanged s
    take_turns-Carried (t ∷ ts) {c} all s open_ fits =
        let size = length-append (handed c.state t) (handed_all c.state ts) in
        Returns-bind (Carried c (handed c.state t)) (Carried c (handed_all c.state (t ∷ ts)))
          (take_turn t c) (take_turns ts)
          (take_turn-Carried t all.0 s open_ (omega (arith, fits, size)))
          (λ d a.
            let e : handed_all d.state ts ≡ handed_all c.state ts =
              ap (λ state. handed_all state ts) a.same_state in
            Returns-map (Carried d (handed_all d.state ts)) _ (take_turns ts d)
              (take_turns-Carried ts {c = d} all.1 a.sound (ap is_disconnected a.same_state ∙ open_)
                (omega (arith, a.room, fits, size, ap length e)))
              (λ x b. one_after (handed c.state t) (handed_all c.state ts) a (rw e at b)))
