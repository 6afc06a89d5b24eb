-- ===== src/Server.antt =====
-- include/knetlib/Server.h and src/Server.cpp: the echo server: its loops, and its connections by
-- their descriptors. The thread pool that runs the loops stands apart, in ThreadPool.
pub mod Arrivals
pub mod Ends
use knet_lib.Common.{
  ℕ, zero, suc, ◌+◌, ◌%◌, ◌==◌, Bool, true, false, List, [], ◌∷◌, Option, none, some, length,
  get_elem?, if◌then◌else◌, Outcome, ok, crash, dangling, ◌>>=◌, ◌>>◌,
}
use knet_lib.Sys.{ReadResult, WriteResult}
use knet_lib.Channel
use knet_lib.Channel.{Channel, Callbacks, new_channel}
use knet_lib.Connection
use knet_lib.Connection.{Connection, destroy_connection, Turn, going_on, replied, gone, echo}
use knet_lib.Epoll.{Kernel}
use knet_lib.EventLoop.Lifetime.{Current, construct}

module _ (kernel : Kernel) where
  open kernel use {Interest}

  -- `interests` are the registrations of each loop's poller.
  pub record Server : Type 0 where
    pub connections : ℕ → Option Connection
    pub sub_reactors : List ℕ
    pub interests : ℕ → Interest

  abbrev pub set_connection : ℕ → Option Connection → Server → Server
  set_connection fd c s = record s {
    connections = λ (q : ℕ). if q == fd then c else s.connections q;
  }

  abbrev pub set_interest : ℕ → Interest → Server → Server
  set_interest loop k s = record s { interests = λ (q : ℕ). if q == loop then k else s.interests q }

  -- The loops that the constructor makes in its own thread, `size` of them: the i-th is `made i`,
  -- with the eventfd `fds i`, on a poller that has no registration yet. The last component is the
  -- thread's pointer to its loop.
  unfoldable pub make_reactors :
      Interest → (ℕ → ℕ) → (ℕ → Option ℕ) → ℕ → ℕ → Current → Outcome (List ℕ × Current)
  make_reactors unused made fds i zero current = ok ([], current)
  make_reactors unused made fds i (suc size) current = do
    loop ← construct kernel (fds i) (made i) unused current
    (rest, current') ← make_reactors unused made fds (suc i) size loop.current
    ok (made i ∷ rest, current')

  -- The loop of a new connection is chosen by the remainder; without a loop that is a division by
  -- zero, given as `dangling`. A connection that the descriptor had before is no longer reached.
  unfoldable pub new_connection : Bool → Option ℕ → Server → Outcome Server
  new_connection here none s = ok s
  new_connection here (some fd) s = elim (get_elem? s.sub_reactors (fd % length s.sub_reactors)) [
    | none ↦ crash dangling
    | some loop ↦ (do
      (c, k) ← Connection.new_connection kernel here loop fd (s.interests loop)
      ok (set_connection fd (some c) (set_interest loop k s)))
  ]

  unfoldable pub delete_connection : Option ℕ → Server → Outcome Server
  delete_connection none s = ok s
  delete_connection (some fd) s = elim (s.connections fd) [
    | none ↦ ok s
    | some c ↦ (do destroy_connection c; ok (set_connection fd none s))
  ]

  -- What the loop of `echo` comes to, with the callback that the server has set.
  abbrev pub after_echo : ℕ → Turn → Server → Outcome Server
  after_echo fd (going_on c) s = ok (set_connection fd (some c) s)
  after_echo fd (replied c) s = ok (set_connection fd (some c) s)
  after_echo fd (gone c) s = delete_connection (some fd) (set_connection fd (some c) s)

  -- The read callback of the connection of a descriptor.
  unfoldable pub on_read : (List ℕ → WriteResult) → List ReadResult → ℕ → Server → Outcome Server
  on_read write reads fd s = elim (s.connections fd) [
    | none ↦ crash dangling
    | some c ↦ (do turn ← echo write reads c; after_echo fd turn s)
  ]

  -- The channel of a connection that the server has.
  abbrev pub channel_of : ℕ → Server → Channel
  channel_of fd s = elim (s.connections fd) [ none ↦ new_channel fd | some c ↦ c.chan ]

  abbrev pub put_channel : ℕ → Channel → Server → Server
  put_channel fd ch s = elim (s.connections fd) [
    | none ↦ s
    | some c ↦ set_connection fd (some (record c { chan = ch })) s
  ]

  -- The callbacks of a connection's channel: only the one for reading is set.
  abbrev pub echo_callbacks : (List ℕ → WriteResult) → List ReadResult → ℕ → Callbacks Server
  echo_callbacks write reads fd = record {
    on_read = some (on_read write reads fd);
    on_write = none;
    on_close = none;
    on_error = none;
  }

  -- The events of a connection, dispatched by its channel; nothing ties the channel.
  unfoldable pub dispatch :
      (List ℕ → WriteResult) → List ReadResult → ℕ → Bool → Server → Outcome Server
  dispatch write reads fd here s =
      Channel.handle_events (channel_of fd) (put_channel fd) (echo_callbacks write reads fd) here
        true s
