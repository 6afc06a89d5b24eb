-- ===== src/EchoServer/Tests.antt =====
-- The reply of EchoServer at a concrete connection.
use knet_lib.Common.{ℕ, refl, arith, true, List, [], ◌∷◌, length, take, length-take, ap, Returns}
use knet_lib.Sys.{ReadResult, received, received_bytes, sum, IsReadv}
use knet_lib.Buffer.Fd.{iovec}
use knet_lib.Epoll.Example.{quiet_kernel, quiet_kernel-IsEpoll}
use knet_lib.TcpConnection.{connected}
use knet_lib.TcpConnection.Events.{handle_read}
use knet_lib.TcpConnection.Example.{
  no_handlers, quiet, quiet-IsSound, two_at_once, two_at_once-IsSteady,
}
use knet_lib.TcpConnection.Reply.{Replied, with_answer, handle_read-Replied}
use knet_lib.EchoServer.{echo}

-- Two bytes that came.
abbrev hi_came : List ℕ → ReadResult
hi_came iov = received (take (sum iov) (104 ∷ 105 ∷ []))

hi_came-IsReadv : IsReadv hi_came
hi_came-IsReadv iov bytes e =
    omega
      (arith, ap (λ r. length (received_bytes r)) e, length-take {A = ℕ} (sum iov) (104 ∷ 105 ∷ []))

handle_read-Replied_example :
    Returns
      (Replied quiet_kernel no_handlers two_at_once echo (quiet connected 3 1) (104 ∷ 105 ∷ []))
      (handle_read quiet_kernel
        (with_answer quiet_kernel no_handlers two_at_once echo)
        hi_came
        true
        (quiet connected 3 1))
unfolding echo iovec
handle_read-Replied_example =
    handle_read-Replied quiet_kernel no_handlers two_at_once echo quiet_kernel-IsEpoll
      two_at_once-IsSteady hi_came (quiet connected 3 1) 104 (105 ∷ []) (quiet-IsSound connected 1)
      refl hi_came-IsReadv refl (omega arith) (omega arith)
