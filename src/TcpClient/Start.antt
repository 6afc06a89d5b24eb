-- ===== src/TcpClient/Start.antt =====
-- TcpClient: starting, where connect(2) answers at once.
use knet_lib.Common.{ℕ, ◌≡◌, refl, true, false, Option, none, crash, null_pointer, Returns-ok}
use knet_lib.Epoll.{Kernel, IsEpoll}
use knet_lib.Epoll.Registered.{IsUnlisted}
use knet_lib.Connector
use knet_lib.Connector.{Report, Connector, new_connection}
use knet_lib.Connector.Attempts.{Attempted, is_pending, start-Attempted}
use knet_lib.TcpClient.{
  TcpClient, cancel_retry, on_new_connection, on_report, start_connector, start,
}

-- `start` of a client whose connect(2) answers at once, by success or by an error other than
-- EINPROGRESS, with no error pending on the socket, cancels a retry timer that is not made yet: it
-- uses a null pointer. The connector is not registered with the kernel.
pub start_connects_at_once :
    (kernel : Kernel) (epoll : IsEpoll kernel) (c : TcpClient kernel) (result : Option ℕ)
    (now p : ℕ)
    → IsUnlisted kernel c.connector.channel c.interest
    → c.connector.started ≡ false
    → c.connector.has_callback ≡ true
    → is_pending result ≡ false
    → c.retry_timer ≡ none
    → start kernel result 0 now p true c ≡ crash null_pointer
unfolding start start_connector on_report on_new_connection
start_connects_at_once kernel epoll c result now p u s h e r =
    let (((d, report), k), eq, a) =
      Returns-ok (Attempted kernel c.connector c.interest 0)
        (Connector.start kernel result 0 true c.connector c.interest)
        (start-Attempted kernel epoll c.connector c.interest result 0 u s e) in
    let no_timer : cancel_retry kernel (record c { connector = d; interest = k })
        ≡ crash null_pointer =
      without_timer (record c { connector = d; interest = k }) r in
    simp (eq, (a.3 refl h).1, no_timer) refl
  where
    without_timer :
        (x : TcpClient kernel) → x.retry_timer ≡ none → cancel_retry kernel x ≡ crash null_pointer
    without_timer x z = rw (z, cancel_retry) refl
