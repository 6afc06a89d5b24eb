-- ===== src/Logger/Tests.antt =====
-- Logger: two lines of which one is below the level.
use knet_lib.Common.{
  ℕ, ◌<◌, ◌≡◌, refl, true, [], ◌∷◌, ◌++◌, List, length, length-append, none, Returns, ◌>>=◌, arith,
}
use knet_lib.AsyncLogging.{Files}
use knet_lib.Logger.{
  Logger, initial_logger, log_file_of, Place, at_test, in_wait, set_async_logging,
}
use knet_lib.Logger.Format.{
  Call, level_trace, level_info, text_of, base_name, after_slash, to_string, digits,
}
use knet_lib.Logger.Async.{IsFlushed, logged_and_disabled, async_session}
use knet_lib.Logger.Lines.{WentOn, lines_of, text_of-pos}

abbrev no_disk : List ℕ → Files
no_disk name = record { file = none; rolled = [] }

abbrev fresh : Logger
fresh = initial_logger no_disk

-- "src/a.cpp".
abbrev path : List ℕ
path = 115 ∷ 114 ∷ 99 ∷ 47 ∷ 97 ∷ 46 ∷ 99 ∷ 112 ∷ 112 ∷ []

base_name-path : base_name path ≡ 97 ∷ 46 ∷ 99 ∷ 112 ∷ 112 ∷ []
unfolding base_name after_slash
base_name-path = refl

to_string-407 : to_string 407 ≡ 52 ∷ 48 ∷ 55 ∷ []
unfolding to_string digits
to_string-407 = refl

abbrev info : Call
info = record {
  level = level_info;
  file = path;
  line = 12;
  time_stamp = 48 ∷ [];
  message = 104 ∷ [];
}

abbrev traced : Call
traced = record info { level = level_trace }

-- "app".
abbrev app : List ℕ
app = 97 ∷ 112 ∷ 112 ∷ []

-- The thread is in its wait when it is stopped, and rolls a file of a hundred bytes.
abbrev in_its_wait : Place
in_its_wait = in_wait 100 (λ i. true)

some_lines : 0 < length (lines_of 77 1 (info ∷ traced ∷ []))
some_lines = omega (arith, length-append (text_of 77 info) [], text_of-pos 77 info)

async_session_example :
    Returns
      (WentOn (IsFlushed (log_file_of app) ([] ++ lines_of 77 1 (info ∷ traced ∷ [])) fresh))
      (set_async_logging at_test true app fresh
        >>= logged_and_disabled 77 (info ∷ traced ∷ []) in_its_wait)
async_session_example =
    async_session 77 at_test in_its_wait true app (info ∷ traced ∷ []) fresh refl (λ i. refl)
      (omega arith) some_lines
