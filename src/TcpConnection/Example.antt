-- ===== src/TcpConnection/Example.antt =====
-- Connections, callbacks and a socket that the runs use.
use knet_lib.Common.{
  ℕ, ◌≡◌, refl, ap, min, List, [], ◌∷◌, true, false, false≢true, none, length, arith,
}
use knet_lib.Sys.{WriteResult, wrote, IsWrite}
use knet_lib.Buffer.{Buffer}
use knet_lib.Buffer.Valid.{IsValid}
use knet_lib.Epoll.Example.{quiet_kernel}
use knet_lib.TcpConnection.{State, disconnecting, Conn, Handlers}
use knet_lib.TcpConnection.Sound.{IsSound}
use knet_lib.TcpConnection.Stream.{IsSteady}
use knet_lib.TcpConnection.Stream.Emptied.{IsGiving}

abbrev pub empty_buffer : Buffer
empty_buffer = record {
  buffer = 0 ∷ 0 ∷ 0 ∷ 0 ∷ 0 ∷ 0 ∷ 0 ∷ 0 ∷ 0 ∷ 0 ∷ [];
  reader_index = 8;
  writer_index = 8;
}

-- Two bytes that wait.
abbrev pub waiting_buffer : Buffer
waiting_buffer = record empty_buffer {
  buffer = 0 ∷ 0 ∷ 0 ∷ 0 ∷ 0 ∷ 0 ∷ 0 ∷ 0 ∷ 5 ∷ 6 ∷ [];
  writer_index = 10;
}

pub empty_buffer-IsValid : IsValid empty_buffer
empty_buffer-IsValid = record {
  front = omega arith;
  ordered = omega arith;
  inside = omega arith;
  small = omega arith;
}

pub waiting_buffer-IsValid : IsValid waiting_buffer
waiting_buffer-IsValid = record {
  front = omega arith;
  ordered = omega arith;
  inside = omega arith;
  small = omega arith;
}

abbrev pub no_handlers : Handlers quiet_kernel
no_handlers = record {
  message_callback = none;
  write_complete_callback = none;
  high_water_mark_callback = none;
  close_callback = none;
}

-- A connection in the given state, with nothing registered and nothing to write.
abbrev pub quiet : State → ℕ → ℕ → Conn quiet_kernel
quiet state events revents = record {
  state = state;
  channel = record {
    pooling = false;
    fd = 5;
    tied = true;
    events = events;
    revents = revents;
    handling_events = false;
  };
  interest = λ fd. none;
  input_buffer = empty_buffer;
  output_buffer = empty_buffer;
  high_water_mark = 64;
  tasks = [];
  wire = 1 ∷ [];
  wr_shut = false;
}

pub quiet-IsSound : (state : State) (revents : ℕ) → IsSound quiet_kernel (quiet state 3 revents)
quiet-IsSound state revents = record {
  input_valid = empty_buffer-IsValid;
  output_valid = empty_buffer-IsValid;
  mask = omega arith;
  unlisted = λ p. refl;
  idle = λ p. refl;
  busy = λ p. absurd (false≢true p);
  armed = λ p q. absurd (false≢true p);
}

-- A connection that was shut down for writing and has two bytes to write.
abbrev pub draining : Conn quiet_kernel
draining = record (quiet disconnecting 7 4) {
  channel = record {
    pooling = true;
    fd = 5;
    tied = true;
    events = 7;
    revents = 4;
    handling_events = false;
  };
  output_buffer = waiting_buffer;
}

pub draining-IsSound : IsSound quiet_kernel draining
draining-IsSound = record {
  input_valid = empty_buffer-IsValid;
  output_valid = waiting_buffer-IsValid;
  mask = omega arith;
  unlisted = λ p. absurd (false≢true (cc));
  idle = λ p. absurd (false≢true (cc));
  busy = λ p. omega arith;
  armed = λ p q. refl;
}

-- A socket that takes two bytes at a time.
abbrev pub two_at_once : List ℕ → WriteResult
two_at_once bytes = wrote (min 2 (length bytes))

abbrev pub count : WriteResult → ℕ
count (wrote n) = n
count _ = 0

pub two_at_once-IsWrite : IsWrite two_at_once
two_at_once-IsWrite bytes n e = omega (arith, ap count e)

pub never_fails :
    (bytes : List ℕ) (errno : ℕ) → ¬ (two_at_once bytes ≡ WriteResult.write_failed errno)
never_fails bytes errno e = cc

pub two_at_once-IsSteady : IsSteady two_at_once
two_at_once-IsSteady = record {
  within = two_at_once-IsWrite;
  no_fault = λ bytes errno e. absurd (never_fails bytes errno e);
}

pub two_at_once-IsGiving : IsGiving two_at_once
two_at_once-IsGiving = (two_at_once-IsWrite, λ bytes some_. (_, refl, omega (arith, some_)))
