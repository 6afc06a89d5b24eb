-- ===== src/Client.antt =====
-- examples/client.cpp: a client that sends the lines that its user types. The thread that reads them
-- shares a few variables with the callbacks in the loop's thread; it runs as steps of `input_step`
-- among theirs.
pub mod Lines
pub mod Leaving
mod Tests
use knet_lib.Common.{
  ℕ, zero, suc, ◌≡◌, Bool, true, false, not, ◌||◌, List, [], ◌∷◌, ◌++◌, Option, none, some, ltb,
  if◌then◌else◌,
}
use knet_lib.Text.{codes, same_text}

-- Where the input thread is: in the waits for the connection, after them, at the test of the loop, in
-- `getline`, with a line, at the mutex with a line to send, behind the loop, or at its end.
pub data Phase : Type 0 where
  waiting : ℕ → Phase
  checking reading in_getline : Phase
  took locking : List ℕ → Phase
  leaving ended : Phase

-- `link` is `g_connection`, with what its `connected()` says, and `quit_called` whether the loop was
-- told to end. `locked` says that another thread, or a signal handler, has `g_conn_mutex`. `given` are the lines that the user has typed so far, `typed` those of them that are
-- not read yet, and `at_end` says that no more come. `sent` are the lines that went to `send`.
pub record World : Type 0 where
  pub link : Option Bool
  pub connected : Bool
  pub should_exit : Bool
  pub quit_called : Bool
  pub locked : Bool
  pub given : List (List ℕ)
  pub typed : List (List ℕ)
  pub at_end : Bool
  pub sent : List (List ℕ)
  pub phase : Phase

abbrev pub started : World
started = record {
  link = none;
  connected = false;
  should_exit = false;
  quit_called = false;
  locked = false;
  given = [];
  typed = [];
  at_end = false;
  sent = [];
  phase = waiting 0;
}

-- The waits are of 50 ms each.
abbrev pub max_waits : ℕ
max_waits = 100

abbrev pub is_command : List ℕ → Bool
is_command line = same_text line (codes "quit") || same_text line (codes "exit")

-- `g_should_exit = true` and `quit`, at each end of the thread.
abbrev pub leave : World → World
leave w = record w { should_exit = true; quit_called = true; phase = ended }

abbrev pub go : Phase → World → World
go phase w = record w { phase = phase }

-- What the thread does with a line, with the connection locked.
unfoldable pub send_line : List ℕ → Option Bool → World → World
send_line line (some true) w = record w { sent = w.sent ++ line ∷ []; phase = reading }
send_line line (some false) w = go leaving w
send_line line none w = go leaving w

unfoldable pub take_line : List (List ℕ) → World → Option World
take_line [] w = if w.at_end then some (go leaving w) else none
take_line (line ∷ rest) w = some (record w { typed = rest; phase = took line })

-- The next step of the input thread; `none` where it waits in `getline` or for the mutex, and at its
-- end.
unfoldable pub step_in : Phase → World → Option World
unfolding send_line take_line
step_in (waiting n) w =
    if w.should_exit || (w.connected || not (ltb n max_waits))
    then some (go checking w)
    else some (go (waiting (suc n)) w)
step_in checking w = if w.connected then some (go reading w) else some (leave w)
step_in reading w = if w.should_exit then some (go leaving w) else some (go in_getline w)
step_in in_getline w = take_line w.typed w
step_in (took line) w =
    if w.should_exit
    then some (go leaving w)
    else if is_command line
    then some (record w { should_exit = true; phase = leaving })
    else some (go (locking line) w)
step_in (locking line) w = if w.locked then none else some (send_line line w.link w)
step_in leaving w = some (leave w)
step_in ended w = none

unfoldable pub input_step : World → Option World
unfolding step_in
input_step w = step_in w.phase w

-- The callbacks, in the loop's thread; that of the connection has the mutex.
unfoldable pub on_connection : Bool → World → World
on_connection true w = record w { link = some true; connected = true }
on_connection false w = record w { link = none; connected = false }

unfoldable pub on_error : World → World
on_error w = record w { should_exit = true; quit_called = true }

abbrev pub shut : Option Bool → Option Bool
shut none = none
shut (some open_) = some false

-- The parts of the handler of signals: before it has the mutex, with it, and after it.
unfoldable pub signal_exit : World → World
signal_exit w = record w { should_exit = true }

unfoldable pub signal_shutdown : World → World
signal_shutdown w = record w { link = shut w.link }

unfoldable pub signal_quit : World → World
signal_quit w = record w { quit_called = true }

-- What happens in the loop's thread and outside.
pub data Event (w : World) : World → Type 0 where
  locks : w.locked ≡ false → Event w (record w { locked = true })
  unlocks : w.locked ≡ true → Event w (record w { locked = false })
  connects : w.locked ≡ true → Event w (on_connection true w)
  disconnects : w.locked ≡ true → Event w (on_connection false w)
  fails : Event w (on_error w)
  signals : Event w (signal_exit w)
  signal_shuts : w.locked ≡ true → Event w (signal_shutdown w)
  signal_quits : Event w (signal_quit w)
  -- The connection leaves its connected state before the callback says so.
  closes : Event w (record w { link = shut w.link })
  types :
      (line : List ℕ)
      → w.at_end ≡ false
      → Event w (record w { given = w.given ++ line ∷ []; typed = w.typed ++ line ∷ [] })
  ends_input : Event w (record w { at_end = true })

pub data Step (w : World) : World → Type 0 where
  input_moves : {v : World} → input_step w ≡ some v → Step w v
  happens : {v : World} → Event w v → Step w v

pub data Reach (v : World) : World → Type 0 where
  here : Reach v v
  next : {w x : World} → Reach v w → Step w x → Reach v x
