-- ===== src/TcpConnection/Stream/Tests.antt =====
-- The theorems of TcpConnection/Stream at concrete connections.
use knet_lib.Common.{List, [], ◌∷◌, ap, refl, arith, length, Returns}
use knet_lib.Epoll.Example.{quiet_kernel, quiet_kernel-IsEpoll}
use knet_lib.TcpConnection.{connected}
use knet_lib.TcpConnection.Stream.{
  SendStep, calls_send, runs_send, has_room, Carried, take_turns, take_turns-Carried,
}
use knet_lib.TcpConnection.Stream.Emptied.{Emptied, rounds, rounds-Emptied}
use knet_lib.TcpConnection.Example.{
  no_handlers, quiet, quiet-IsSound, draining, draining-IsSound, two_at_once, two_at_once-IsSteady,
  two_at_once-IsGiving,
}

-- Five bytes, room for two of them, and two bytes more.
abbrev five_and_two : List SendStep
five_and_two =
    calls_send two_at_once (4 ∷ 5 ∷ 6 ∷ 7 ∷ 8 ∷ [])
    ∷ has_room two_at_once
    ∷ runs_send two_at_once (9 ∷ 9 ∷ [])
    ∷ []

take_turns-Carried_example :
    Returns
      (Carried quiet_kernel no_handlers (quiet connected 3 0) (4 ∷ 5 ∷ 6 ∷ 7 ∷ 8 ∷ 9 ∷ 9 ∷ []))
      (take_turns quiet_kernel no_handlers five_and_two (quiet connected 3 0))
take_turns-Carried_example =
    take_turns-Carried quiet_kernel no_handlers quiet_kernel-IsEpoll five_and_two
      {c = quiet connected 3 0}
      (two_at_once-IsSteady, (two_at_once-IsSteady, (two_at_once-IsSteady, tt)))
      (quiet-IsSound connected 0) refl (omega arith)

rounds-Emptied_example :
    Returns
      (Emptied quiet_kernel no_handlers two_at_once draining)
      (rounds quiet_kernel no_handlers two_at_once 2 draining)
rounds-Emptied_example =
    rounds-Emptied quiet_kernel no_handlers two_at_once quiet_kernel-IsEpoll two_at_once-IsGiving 2
      {c = draining} draining-IsSound refl (λ p q. absurd (omega (arith, ap length q)))
      (omega arith)
