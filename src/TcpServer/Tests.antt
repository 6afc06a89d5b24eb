-- ===== src/TcpServer/Tests.antt =====
-- The theorems of TcpServer at a concrete server.
use knet_lib.Common.{ℕ, ◌+◌, ◌^◌, ◌≡◌, refl, [], ◌∷◌, Option, none, Returns}
use knet_lib.Buffer.{Buffer}
use knet_lib.Epoll.Example.{quiet_kernel, quiet_kernel-IsEpoll}
use knet_lib.EventLoopThreadPool.{start_threads}
use knet_lib.TcpConnection.{Conn}
use knet_lib.TcpServer.{to_int, closed, establish}
use knet_lib.TcpServer.Lifetime.{establish_dropped}
use knet_lib.TcpServer.Dealing.{deal, serve, serve-Dealt}

-- The loops of the threads are 10, 11, 12 and so on.
abbrev from_ten : ℕ → ℕ
from_ten i = 10 + i

serve-Dealt_example :
    Returns
      (λ s.
        s.handed
        ≡ deal 1
            (start_threads from_ten 0 (to_int (2 ^ 32 + 2)))
            (start_threads from_ten 0 (to_int (2 ^ 32 + 2)))
            (5 ∷ 6 ∷ 7 ∷ []))
      (serve 1 (2 ^ 32 + 2) from_ten (5 ∷ 6 ∷ 7 ∷ []))
serve-Dealt_example = serve-Dealt 1 (2 ^ 32 + 2) from_ten (5 ∷ 6 ∷ 7 ∷ [])

cast : (to_int 2 ≡ 2) × (to_int (2 ^ 32 + 2) ≡ 2) × (to_int (2 ^ 31) ≡ 0)
unfolding to_int
cast = (refl, refl, refl)

dealt_in_turn :
    deal 1 (10 ∷ 11 ∷ []) (10 ∷ 11 ∷ []) (5 ∷ 6 ∷ 7 ∷ []) ≡ (10, 5) ∷ (11, 6) ∷ (10, 7) ∷ []
unfolding deal
dealt_in_turn = refl

abbrev no_bytes : Buffer
no_bytes = record { buffer = []; reader_index = 8; writer_index = 8 }

abbrev no_interest : ℕ → Option ℕ
no_interest fd = none

-- A connection callback that keeps no pointer, as those of the examples.
abbrev forgets : Conn quiet_kernel → ℕ
forgets c = 0

establish_dropped_example :
    Returns
      (λ life. life ≡ closed 5)
      (establish quiet_kernel forgets 5 no_bytes no_bytes no_interest)
establish_dropped_example =
    establish_dropped quiet_kernel quiet_kernel-IsEpoll 5 no_bytes no_bytes no_interest refl forgets
      (λ c. refl)
