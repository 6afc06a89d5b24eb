-- ===== src/AsyncLogging/Tests.antt =====
-- The theorems of AsyncLogging at concrete states.
use knet_lib.Common.{ℕ, ◌≡◌, refl, [], ◌∷◌, Bool, true, none, some, Returns, ◌>>=◌, arith}
use knet_lib.AsyncLogging.{Files, Logging, initial, log, round}
use knet_lib.AsyncLogging.Rounds.{pending, IsReady}
use knet_lib.AsyncLogging.Losses.{line_after_idle_lost}

abbrev no_files : Files
no_files = record { file = none; rolled = [] }

abbrev started : Logging
started = initial no_files

started-IsReady : IsReady started
started-IsReady = (refl, (refl, refl))

abbrev always : ℕ → Bool
always i = true

-- A full buffer waits, and the current one has a line.
abbrev busy_logging : Logging
busy_logging = record started {
  front = record started.front {
    buffers = (1 ∷ 2 ∷ []) ∷ [];
    current_buffer = some (3 ∷ []);
    next_buffer = none;
  };
}

busy_logging-IsReady : IsReady busy_logging
busy_logging-IsReady = ((omega arith, omega arith), (refl, refl))

-- An idle round has left the thread without its first spare buffer.
abbrev after_idle : Logging
after_idle = record started {
  front = record started.front { current_buffer = some (7 ∷ []) };
  back = record started.back { new_buffer1 = none };
}

line_after_idle_lost_example :
    Returns
      (λ l'. (pending l'.front ≡ []) × (l'.files ≡ no_files))
      (round 100 always started >>= (λ l1. log (7 ∷ 8 ∷ []) l1 >>= round 100 always))
line_after_idle_lost_example =
    line_after_idle_lost 100 always started (7 ∷ 8 ∷ []) started-IsReady refl refl (omega arith)
