-- ===== src/TcpConnection/Tests.antt =====
-- The theorems of TcpConnection at concrete connections.
use knet_lib.Common.{
  ℕ, ◌≡◌, ◌>>=◌, refl, List, [], ◌∷◌, true, false, none, Outcome, ok, crash, assertion, IfReturns,
}
use knet_lib.Sys.{ReadResult, read_failed, eagain}
use knet_lib.Channel
use knet_lib.Channel.{Channel}
use knet_lib.Epoll.Example.{quiet_kernel, quiet_kernel-IsEpoll}
use knet_lib.TcpConnection.{connected, disconnected, Conn, shutdown_exchange}
use knet_lib.TcpConnection.Events.{handle_close}
use knet_lib.TcpConnection.Sending.{dispatch, force_close_exchange, force_close}
use knet_lib.TcpConnection.Forward.{Since}
use knet_lib.TcpConnection.Forward.Calls.{AllForward}
use knet_lib.TcpConnection.Forward.Operations.{
  Operation, call_send, call_shutdown, exchange_shutdown, call_force_close, event_comes, perform,
  IsInTime, AllInTime, perform_all, perform_all-Since,
}
use knet_lib.TcpConnection.Forward.Late.{late_exchange_closes_again}
use knet_lib.TcpConnection.Close.{Closed, handle_close-Closed, LeavesClosed, hangup_with_error}
use knet_lib.TcpConnection.Example.{no_handlers, quiet, quiet-IsSound, two_at_once}

handle_close-Closed_example :
    (d : Conn quiet_kernel) × Closed quiet_kernel no_handlers (quiet connected 3 0) d
    × (handle_close quiet_kernel no_handlers true (quiet connected 3 0) ≡ Channel.call none d)
handle_close-Closed_example =
    handle_close-Closed quiet_kernel no_handlers quiet_kernel-IsEpoll (quiet connected 3 0)
      (quiet-IsSound connected 0) refl

abbrev no_read : List ℕ → ReadResult
no_read iov = read_failed eagain

abbrev gone : Conn quiet_kernel
gone = quiet disconnected 3 0

no_handlers-LeavesClosed : LeavesClosed quiet_kernel no_handlers
no_handlers-LeavesClosed d e = (e, refl)

-- EPOLLERR and EPOLLHUP.
hangup_with_error_example :
    dispatch quiet_kernel no_handlers no_read two_at_once true true (quiet connected 3 24)
    ≡ crash assertion
hangup_with_error_example =
    hangup_with_error quiet_kernel no_handlers quiet_kernel-IsEpoll (quiet connected 3 24) no_read
      two_at_once (quiet-IsSound connected 24) no_handlers-LeavesClosed refl refl refl refl

no_handlers-AllForward : AllForward quiet_kernel no_handlers
no_handlers-AllForward = record { message = tt; write_complete = tt; high_water = tt; close = tt }

abbrev at_the_end : List Operation
at_the_end = event_comes no_read two_at_once true true ∷ call_force_close ∷ []

-- A half-close in another thread, a send, a half-close in the loop's thread, a hang-up that the
-- loop sees, and a call of `forceClose`, too late.
abbrev to_the_end : List Operation
to_the_end =
    exchange_shutdown ∷ call_send two_at_once (7 ∷ 8 ∷ 9 ∷ []) true ∷ call_shutdown ∷ at_the_end

-- What holds of every connection holds of the one that an operation returns.
always :
    {P : Conn quiet_kernel → Type 0} (x : Outcome (Conn quiet_kernel))
    → ((d : Conn quiet_kernel) → P d)
    → IfReturns P x
always (ok d) h = h d
always (crash k) h = tt

first_in_time :
    (o : Operation) (os : List Operation) (c : Conn quiet_kernel)
    → IsInTime quiet_kernel no_handlers o c
    → ((d : Conn quiet_kernel) → AllInTime quiet_kernel no_handlers os d)
    → AllInTime quiet_kernel no_handlers (o ∷ os) c
first_in_time o os c t h = (t, always (perform quiet_kernel no_handlers o c) h)

to_the_end-AllInTime : AllInTime quiet_kernel no_handlers to_the_end (quiet connected 3 16)
to_the_end-AllInTime =
    first_in_time exchange_shutdown
      (call_send two_at_once (7 ∷ 8 ∷ 9 ∷ []) true ∷ call_shutdown ∷ at_the_end) _ refl
      (λ c1.
        first_in_time (call_send two_at_once (7 ∷ 8 ∷ 9 ∷ []) true) (call_shutdown ∷ at_the_end) c1
          tt
          (λ c2. first_in_time call_shutdown at_the_end c2 tt (λ c3.
            first_in_time (event_comes no_read two_at_once true true) (call_force_close ∷ []) c3 tt
              (λ c4. first_in_time call_force_close [] c4 tt (λ c5. tt)))))

perform_all-Since_example :
    IfReturns
      (Since quiet_kernel 1)
      (perform_all quiet_kernel no_handlers to_the_end (quiet connected 3 16))
perform_all-Since_example =
    perform_all-Since quiet_kernel no_handlers no_handlers-AllForward to_the_end
      (quiet connected 3 16) to_the_end-AllInTime

late_exchange_closes_again_example :
    ((force_close_exchange quiet_kernel no_handlers false gone
        >>= force_close quiet_kernel no_handlers true)
      ≡ Channel.call none gone)
    × ((shutdown_exchange quiet_kernel false gone >>= force_close quiet_kernel no_handlers true)
        ≡ Channel.call none gone)
late_exchange_closes_again_example =
    late_exchange_closes_again quiet_kernel no_handlers gone refl refl
