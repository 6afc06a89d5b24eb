-- ===== src/TcpConnection.antt =====
-- include/knetlib/TcpConnection.h and src/TcpConnection.cpp: one connection, with the part of its
-- loop that it uses. A system call's answer, and whether the calling thread is the loop's (`here`),
-- are arguments; a call that the loop will make later is a `Task` at the end of `tasks`.
pub mod Events
pub mod Sending
pub mod Sound
pub mod Accept
pub mod Drain
pub mod Close
pub mod Forward
pub mod Stream
pub mod Reply
pub mod Example
mod Tests
use knet_lib.Common.{
  ℕ, ◌==◌, Bool, true, false, not, ◌&&◌, ◌||◌, List, [], ◌∷◌, ◌++◌, Option, none, some,
  if◌then◌else◌, Outcome, ok, check, ◌>>=◌, ◌>>◌,
}
use knet_lib.Sys.{epipe, econnreset}
use knet_lib.Buffer.{Buffer}
use knet_lib.Channel
use knet_lib.Channel.{Channel, is_reading, is_writing, new_channel, destroy_channel}
use knet_lib.Epoll.{Kernel, enable_read, disable_read}

-- enum ConnectState.
pub data State : Type 0 where
  connecting connected disconnecting disconnected : State

abbrev pub is_connecting : State → Bool
is_connecting connecting = true
is_connecting _ = false

abbrev pub is_connected : State → Bool
is_connected connected = true
is_connected _ = false

abbrev pub is_disconnecting : State → Bool
is_disconnecting disconnecting = true
is_disconnecting _ = false

abbrev pub is_disconnected : State → Bool
is_disconnected disconnected = true
is_disconnected _ = false

-- What the connection queues into its loop.
pub data Task : Type 0 where
  run_write_complete : Task
  run_high_water : ℕ → Task
  run_send : List ℕ → Task
  run_shutdown run_force_close run_stop_read run_start_read : Task

abbrev pub is_some {ℓ} : {A : Type ℓ} → Option A → Bool
is_some none = false
is_some (some a) = true

-- The write errors that mean that the peer is gone.
abbrev pub is_fault : ℕ → Bool
is_fault errno = errno == epipe || errno == econnreset

module _ (kernel : Kernel) where
  open kernel use {Interest}

  -- `wire` is what write(2) has taken so far, and `wr_shut` says that shutdown(SHUT_WR) was called.
  pub record Conn : Type 0 where
    pub state : State
    pub channel : Channel
    pub interest : Interest
    pub input_buffer : Buffer
    pub output_buffer : Buffer
    pub high_water_mark : ℕ
    pub tasks : List Task
    pub wire : List ℕ
    pub wr_shut : Bool

  -- The callbacks that the owner has set; `none` is an empty one.
  pub record Handlers : Type 0 where
    pub message_callback : Option (Conn → Outcome Conn)
    pub write_complete_callback : Option (Conn → Outcome Conn)
    pub high_water_mark_callback : Option (ℕ → Conn → Outcome Conn)
    pub close_callback : Option (Conn → Outcome Conn)

  abbrev pub queue_in_loop : Task → Conn → Conn
  queue_in_loop task c = record c { tasks = c.tasks ++ task ∷ [] }

  -- A call of the channel that goes through to the poller.
  abbrev pub on_channel :
      (Bool → Channel → Interest → Outcome (Channel × Interest)) → Bool → Conn → Outcome Conn
  on_channel f here c = do
    (channel, interest) ← f here c.channel c.interest
    ok (record c { channel = channel; interest = interest })

  unfoldable pub connect_established : Bool → Conn → Outcome Conn
  connect_established here c = do
    check (is_connecting c.state)
    on_channel (enable_read kernel) here
        (record c { state = connected; channel = Channel.tie c.channel })

  unfoldable pub shutdown_in_loop : Bool → Conn → Outcome Conn
  shutdown_in_loop here c = do
    check here
    ok (
        if not (is_disconnected c.state) && not (is_writing c.channel)
        then record c { wr_shut = true }
        else c)

  -- `shutdown` from the exchange on. In another thread than the loop's the state may have changed
  -- since the load.
  unfoldable pub shutdown_exchange : Bool → Conn → Outcome Conn
  unfolding shutdown_in_loop
  shutdown_exchange here c =
      let c' = record c { state = disconnecting } in
      if is_connected c.state
      then (if here then shutdown_in_loop here c' else ok (queue_in_loop run_shutdown c'))
      else ok c'

  -- The load, and the exchange that follows it at once.
  unfoldable pub shutdown : Bool → Conn → Outcome Conn
  unfolding shutdown_exchange
  shutdown here c = do check (not (is_disconnected c.state)); shutdown_exchange here c

  unfoldable pub stop_read_in_loop : Bool → Conn → Outcome Conn
  stop_read_in_loop here c =
      if is_reading c.channel then on_channel (disable_read kernel) here c else ok c

  unfoldable pub start_read_in_loop : Bool → Conn → Outcome Conn
  start_read_in_loop here c =
      if is_reading c.channel then ok c else on_channel (enable_read kernel) here c

  unfoldable pub stop_read : Bool → Conn → Outcome Conn
  unfolding stop_read_in_loop
  stop_read here c = if here then stop_read_in_loop here c else ok (queue_in_loop run_stop_read c)

  unfoldable pub start_read : Bool → Conn → Outcome Conn
  unfolding start_read_in_loop
  start_read here c =
      if here then start_read_in_loop here c else ok (queue_in_loop run_start_read c)

  -- The constructor, for a new socket; the loop's registrations are as they were.
  unfoldable pub new_conn : ℕ → Buffer → Buffer → Interest → Conn
  new_conn fd input output interest = record {
    state = connecting;
    channel = new_channel fd;
    interest = interest;
    input_buffer = input;
    output_buffer = output;
    high_water_mark = 0;
    tasks = [];
    wire = [];
    wr_shut = false;
  }

  -- setHighWaterMarkCallback sets the mark; the callback stands in `Handlers`.
  unfoldable pub set_high_water_mark : ℕ → Conn → Conn
  set_high_water_mark mark c = record c { high_water_mark = mark }

  -- The destructor: the descriptor that it closes, in any state. ~Channel follows.
  unfoldable pub destroy_conn : Conn → Outcome ℕ
  destroy_conn c = do destroy_channel c.channel; ok c.channel.fd
