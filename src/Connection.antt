-- ===== src/Connection.antt =====
-- include/knetlib/Connection.h and src/Connection.cpp: a connection of the echo server. What read(2)
-- and write(2) answer is given; `deleteConnectionCallBack` is the last thing that `echo` calls, and
-- is left to the server.
pub mod Echo
pub mod Send
mod Tests
use knet_lib.Common.{
  ℕ, zero, suc, ◌+◌, ◌==◌, Bool, true, false, List, [], ◌∷◌, ◌++◌, Option, none, some, length, take,
  if◌then◌else◌, Outcome, ok, crash, exit_failure, ◌>>=◌, ◌>>◌,
}
use knet_lib.Memory.{slice}
use knet_lib.Words.{sub_size}
use knet_lib.Sys.{
  ReadResult, received, read_failed, WriteResult, wrote, write_failed, eintr, eagain,
}
use knet_lib.Buffer.{Buffer, new_buffer, initial_size, contents, append}
use knet_lib.Channel.{Channel, new_channel, destroy_channel}
use knet_lib.Epoll.{Kernel, enable_read}

-- A loop is its address; `wire` is what write(2) has taken so far. The empty string `inBuffer` is left out.
pub record Connection : Type 0 where
  pub loop : ℕ
  pub chan : Channel
  pub read_buffer : Buffer
  pub wire : List ℕ

-- The constructor, for a loop and a descriptor, with the registrations of the loop.
module _ (kernel : Kernel) where
  open kernel use {Interest}

  unfoldable pub new_connection : Bool → ℕ → ℕ → Interest → Outcome (Connection × Interest)
  new_connection here loop fd k = do
    (chan, k') ← enable_read kernel here (new_channel fd) k
    buffer ← new_buffer initial_size
    ok (record { loop = loop; chan = chan; read_buffer = buffer; wire = [] }, k')

-- The destructor, which deletes the channel first.
unfoldable pub destroy_connection : Connection → Outcome (Unit {0})
destroy_connection c = destroy_channel c.chan

-- Where the loop of `echo` stands: it goes on, or it is over, with or without the callback.
pub data Turn : Type 0 where
  going_on : Connection → Turn
  replied : Connection → Turn
  gone : Connection → Turn

-- All of the buffer is written, once, and the buffer is left as it is.
unfoldable pub reply : (List ℕ → WriteResult) → Connection → Outcome Turn
reply write c = elim (write (contents c.read_buffer)) [
  | write_failed errno ↦ crash exit_failure
  | wrote n ↦ ok (replied (record c { wire = c.wire ++ take n (contents c.read_buffer) }))
]

-- One turn of the loop.
unfoldable pub echo_turn : (List ℕ → WriteResult) → ReadResult → Connection → Outcome Turn
unfolding reply
echo_turn write (received []) c = ok (gone c)
echo_turn write (received (x ∷ xs)) c = do
  buffer ← append (x ∷ xs) c.read_buffer
  ok (going_on (record c { read_buffer = buffer }))
echo_turn write (read_failed errno) c =
    if errno == eintr
    then ok (going_on c)
    else if errno == eagain
    then reply write c
    else ok (gone c)

-- The loop, over the answers of read(2) in turn.
unfoldable pub echo : (List ℕ → WriteResult) → List ReadResult → Connection → Outcome Turn
unfolding echo_turn
echo write [] c = ok (going_on c)
echo write (r ∷ rs) c = do
  turn ← echo_turn write r c
  elim turn [
    | going_on c' ↦ echo write rs c'
    | replied c' ↦ ok (replied c')
    | gone c' ↦ ok (gone c')
  ]

-- The loop of `send` over a copy of the buffer, for at most `fuel` calls of write(2), of which
-- `write i` is the answer to the i-th. `none` is a loop that has not ended; the other value is what
-- the calls have taken.
unfoldable pub send_loop : ℕ → (ℕ → List ℕ → WriteResult) → List ℕ → ℕ → List ℕ → Option (List ℕ)
send_loop zero write data_ left wire = none
send_loop (suc fuel) write data_ left wire =
    let rest = slice data_ (sub_size (length data_) left) left in
    if left == 0 then some wire else elim (write 0 rest) [
      | write_failed errno ↦ some wire
      | wrote n ↦ send_loop fuel (λ i. write (suc i)) data_ (sub_size left n) (wire ++ take n rest)
    ]

-- `send`, which leaves the buffer as it is.
unfoldable pub send : ℕ → (ℕ → List ℕ → WriteResult) → Connection → Option Connection
unfolding send_loop
send fuel write c =
    let bytes = contents c.read_buffer in
    if length bytes == 0 then some c else elim (send_loop fuel write bytes (length bytes) c.wire) [
      | none ↦ none
      | some wire ↦ some (record c { wire = wire })
    ]
