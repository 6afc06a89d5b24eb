-- ===== src/Connection/Tests.antt =====
-- Connection: an event with five bytes, and an interruption between them; a send in two writes.
use knet_lib.Common.{
  ℕ, ◌≤◌, ◌≡◌, refl, true, false, List, [], ◌∷◌, ◌++◌, length, take, arith, some, Returns, ◌>>=◌,
}
use knet_lib.Sys.{
  ReadResult, received, read_failed, WriteResult, wrote, write_failed, eintr, eagain,
}
use knet_lib.Buffer.{Buffer}
use knet_lib.Buffer.Valid.{IsValid}
use knet_lib.Connection.{Connection, echo, send}
use knet_lib.Connection.Echo.{all_bytes, next_event, HasReplied, echo_resends}
use knet_lib.Connection.Send.{IsSocketWrite, NeverFails, send-Ends}

abbrev room : Buffer
room = record {
  buffer = 0 ∷ 0 ∷ 0 ∷ 0 ∷ 0 ∷ 0 ∷ 0 ∷ 0 ∷ 0 ∷ 0 ∷ [];
  reader_index = 8;
  writer_index = 8;
}

room-IsValid : IsValid room
room-IsValid = record {
  front = omega arith;
  ordered = omega arith;
  inside = omega arith;
  small = omega arith;
}

abbrev idle : Connection
idle = record {
  loop = 0;
  chan = record {
    pooling = true;
    fd = 5;
    tied = false;
    events = 3;
    revents = 1;
    handling_events = false;
  };
  read_buffer = room;
  wire = [];
}

abbrev answers : List ReadResult
answers = received (1 ∷ 2 ∷ 3 ∷ []) ∷ read_failed eintr ∷ received (4 ∷ 5 ∷ []) ∷ []

abbrev takes_all : List ℕ → WriteResult
takes_all bytes = wrote (length bytes)

abbrev is_full : List ℕ → WriteResult
is_full bytes = write_failed eagain

echo_resends_example :
    Returns (HasReplied ([] ++ all_bytes answers ++ all_bytes answers ++ (9 ∷ []))) (
      echo takes_all (answers ++ read_failed eagain ∷ []) idle
      >>= next_event takes_all (received (9 ∷ []) ∷ read_failed eagain ∷ []))
echo_resends_example =
    echo_resends takes_all answers (received (9 ∷ []) ∷ []) idle (λ bytes. refl) room-IsValid refl
      (tt, (refl, (tt, tt))) (tt, tt) (omega arith)

-- Two unsent bytes.
abbrev loaded : Connection
loaded = record idle {
  read_buffer = record {
    buffer = 0 ∷ 0 ∷ 0 ∷ 0 ∷ 0 ∷ 0 ∷ 0 ∷ 0 ∷ 6 ∷ 7 ∷ [];
    reader_index = 8;
    writer_index = 10;
  };
}

-- One byte at a time.
abbrev takes_one : List ℕ → WriteResult
takes_one [] = wrote 0
takes_one (x ∷ xs) = wrote 1

takes_one-IsSocketWrite : IsSocketWrite takes_one
takes_one-IsSocketWrite [] n h e = absurd (omega arith)
takes_one-IsSocketWrite (x ∷ xs) n h e = let one : 1 ≡ n = cc in (omega arith, omega arith)

send-Ends_example :
    (k : ℕ) × (k ≤ 2)
    × (send 3 (λ i. takes_one) loaded ≡ some (record loaded { wire = [] ++ take k (6 ∷ 7 ∷ []) }))
    × (((i : ℕ) → NeverFails takes_one) → k ≡ 2)
send-Ends_example =
    send-Ends 3 (λ i. takes_one) loaded (λ i. takes_one-IsSocketWrite) (omega arith) (omega arith)
