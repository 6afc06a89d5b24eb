-- ===== src/Client/Tests.antt =====
-- The theorems of Client at concrete runs.
use knet_lib.Common.{ℕ, ◌≡◌, ◌≢◌, ◌≤◌, refl, true, none, some, [], ◌∷◌}
use knet_lib.Text.{codes}
use knet_lib.Client.{
  reading, in_getline, ended, World, started, on_connection, input_step, step_in, take_line,
  send_line, input_moves, happens, locks, unlocks, connects, types, Reach, here, next,
}
use knet_lib.Client.Lines.{IsAccounted, sent_in_order}
use knet_lib.Client.Leaving.{Run, IsStuck, IsShutOut, CanStep, AllQuiet, exit_ends}

-- A line is typed after the connection was made, and sent.
abbrev hello_sent : World
hello_sent = record started {
  link = some true;
  connected = true;
  given = codes "hello" ∷ [];
  sent = codes "hello" ∷ [];
  phase = reading;
}

-- The callback has the mutex, and the thread finds the connection afterwards.
connected_now : Reach started (record hello_sent { given = []; sent = [] })
unfolding input_step step_in on_connection
connected_now =
    next
      (next
        (next (next (next here (happens (locks refl))) (happens (connects refl)))
          (happens (unlocks refl)))
        (input_moves refl))
      (input_moves refl)

hello_sent-Reach : Reach started hello_sent
unfolding input_step step_in take_line send_line on_connection
hello_sent-Reach =
    next
      (next
        (next (next (next connected_now (input_moves refl)) (happens (types (codes "hello") refl)))
          (input_moves refl))
        (input_moves refl))
      (input_moves refl)

sent_in_order_example : IsAccounted (codes "hello" ∷ []) [] (codes "hello" ∷ []) reading
sent_in_order_example = sent_in_order hello_sent-Reach

-- The connection failed while the thread waits for a line.
abbrev failed : World
failed = record hello_sent { phase = in_getline; should_exit = true; quit_called = true }

exit_ends_example :
    ((k : ℕ) (v : World) → Run failed k v → k ≤ 4)
    × (failed.phase ≢ ended → ¬ IsStuck failed → ¬ IsShutOut failed → CanStep (input_step failed))
    × (IsStuck failed
        → (k : ℕ) (v : World) (r : Run failed k v) → AllQuiet r
        → (k ≡ 0) × IsStuck v × (input_step v ≡ none))
exit_ends_example = exit_ends failed refl
