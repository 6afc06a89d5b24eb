-- ===== src/TcpClient/Tests.antt =====
-- The theorems of TcpClient at concrete clients.
use knet_lib.Common.{◌>>=◌, refl, true, false, none, some, [], Returns, arith}
use knet_lib.Epoll.Example.{quiet_kernel, quiet_kernel-IsEpoll}
use knet_lib.Connector.{new_connector}
use knet_lib.TcpConnection.{State, Conn}
use knet_lib.TcpConnection.Sound.{IsSound}
use knet_lib.TcpConnection.Example.{
  no_handlers, draining, draining-IsSound, two_at_once, two_at_once-IsGiving,
}
use knet_lib.TcpClient.{TcpClient}
use knet_lib.TcpClient.Session.{Session, disconnected_by}
use knet_lib.TcpClient.Session.Flushed.{Flushed, on_room, disconnect_flushes}

abbrev client : TcpClient quiet_kernel
client = record {
  connected = false;
  retry_timer = none;
  connector = record (new_connector quiet_kernel 5) { has_callback = true };
  connection = none;
  timers = record { timers = []; heap = λ p. none; armed = none };
  interest = λ fd. none;
}

-- A connected client whose connection has two bytes to write.
abbrev waiting_open : Conn quiet_kernel
waiting_open = record draining { state = State.connected }

waiting_open-IsSound : IsSound quiet_kernel waiting_open
waiting_open-IsSound = record {
  input_valid = draining-IsSound.input_valid;
  output_valid = draining-IsSound.output_valid;
  mask = draining-IsSound.mask;
  unlisted = draining-IsSound.unlisted;
  idle = draining-IsSound.idle;
  busy = draining-IsSound.busy;
  armed = λ p q. refl;
}

abbrev one_session : Session quiet_kernel
one_session = record { connected_flag = true; connection = some waiting_open; queued = 0 }

disconnect_flushes_example : Returns (Flushed quiet_kernel no_handlers two_at_once waiting_open) (
    disconnected_by quiet_kernel false one_session
    >>= on_room quiet_kernel no_handlers two_at_once 2)
disconnect_flushes_example =
    disconnect_flushes quiet_kernel no_handlers two_at_once quiet_kernel-IsEpoll
      two_at_once-IsGiving false 2 waiting_open one_session refl refl waiting_open-IsSound refl
      (omega arith)
