-- ===== src/AsyncLogging/Threads/Tests.antt =====
-- The theorems of AsyncLogging/Threads at a concrete session.
use knet_lib.Common.{ℕ, ◌≢◌, ◌≤◌, refl, List, [], ◌∷◌, true, false, none, some, arith}
use knet_lib.AsyncLogging.{
  Files, Logging, initial, collect, write_out, write_buffers, write_buffer, roll_if_full, log,
  append, append_to,
}
use knet_lib.AsyncLogging.Threads.{
  at_loop, writing, ended, World, WriterStep, goes_in, takes, writes, flushes, writer_steps,
  appends, stops, Reach, here, next, AllServed, started,
}
use knet_lib.AsyncLogging.Threads.Ordered.{IsOrdered, accepted_in_order}
use knet_lib.AsyncLogging.Threads.Joined.{WriterRun, rests, runs, stop_joins}

abbrev no_files : Files
no_files = record { file = none; rolled = [] }

abbrev going_on : (queue : List (List ℕ)) → writing queue ≢ ended
going_on queue e = cc

abbrev not_yet : at_loop ≢ ended
not_yet e = cc

-- The threads' state with the given bytes in the current buffer and in the file.
abbrev with_bytes : List ℕ → Files → Logging
with_bytes bytes fs = record (initial fs) {
  front = record (initial fs).front { current_buffer = some bytes };
}

abbrev file_of : List ℕ → Files
file_of bytes = record { file = some bytes; rolled = [] }

-- A line is taken and written while the next one is appended; then the owner stops.
abbrev stopped : World
stopped = record {
  logging = with_bytes (8 ∷ []) (file_of (7 ∷ []));
  running = false;
  writer = at_loop;
  accepted = 7 ∷ 8 ∷ [];
}

session : Reach 100 (started no_files) stopped
unfolding collect write_out write_buffers write_buffer roll_if_full log append append_to
session =
    next
      (next
        (next
          (next
            (next
              (next here
                (appends (7 ∷ []) (with_bytes (7 ∷ []) no_files) not_yet (omega arith) refl))
              (writer_steps (goes_in refl refl)))
            (writer_steps (takes refl)))
          (appends (8 ∷ [])
            (record (with_bytes (8 ∷ []) no_files) {
              back = record (with_bytes [] no_files).back { new_buffer1 = none };
            })
            (going_on _) (omega arith) refl))
        (writer_steps
          (writes ((7 ∷ []) ∷ []) (λ i. true) (with_bytes (8 ∷ []) (file_of (7 ∷ []))) refl refl)))
      stops

session-AllServed : AllServed 100 session
unfolding session collect
session-AllServed = (((tt, tt), (omega arith, omega arith)), λ i. refl)

accepted_in_order_example : IsOrdered [] stopped
accepted_in_order_example = accepted_in_order 100 no_files session session-AllServed

-- The thread's last steps: nothing is left of a round.
last_step : (v : World) × WriterRun 100 stopped 1 v
last_step = (_, runs rests (flushes true refl refl))

stop_joins_example :
    (1 ≤ 3) × (last_step.0.writer ≢ ended → (x : World) × WriterStep 100 last_step.0 x)
stop_joins_example =
    stop_joins 100 no_files session session-AllServed refl 1 last_step.0 last_step.1
