-- ===== src/Logger.antt =====
-- include/knetlib/Logger.h and src/Logger.cpp: where a log line goes. The process-wide variables are
-- the record `Logger`; a name is its characters.
pub mod Format
pub mod Lines
pub mod Async
mod Tests
use knet_lib.Common.{
  ℕ, ◌==◌, Bool, true, false, not, ◌&&◌, ◌||◌, List, [], ◌∷◌, ◌++◌, Option, none, some, ltb,
  if◌then◌else◌, Outcome, ok, ◌>>=◌,
}
use knet_lib.AsyncLogging.{Files, Logging, initial, log, final_flush, round, write_buffer, is_empty}
use knet_lib.Text.{same_text}
use Format.{Level, rank, level_debug, Call, text_of, system_text_of}

abbrev is_prefix : List ℕ → List ℕ → Bool
is_prefix [] ys = true
is_prefix (x ∷ xs) [] = false
is_prefix (x ∷ xs) (y ∷ ys) = (x == y) && is_prefix xs ys

-- `find` gives a position.
abbrev contains : List ℕ → List ℕ → Bool
contains part [] = is_prefix part []
contains part (y ∷ ys) = is_prefix part (y ∷ ys) || contains part ys

-- "stdout" and ".log".
abbrev pub stdout_name : List ℕ
stdout_name = 115 ∷ 116 ∷ 100 ∷ 111 ∷ 117 ∷ 116 ∷ []

abbrev dot_log : List ℕ
dot_log = 46 ∷ 108 ∷ 111 ∷ 103 ∷ []

-- The file that the logging thread writes.
abbrev pub log_file_of : List ℕ → List ℕ
log_file_of basename = if contains dot_log basename then basename else basename ++ dot_log

-- `ofs` is the name of the file that the stream has open, `console` what std::cout was given, and
-- `disk` the files by name, without what the running `async_logging`, if there is one, has done to
-- the files under its own name.
pub record Logger : Type 0 where
  pub log_level : Level
  pub log_file_name : List ℕ
  pub ofs : Option (List ℕ)
  pub console : List ℕ
  pub disk : List ℕ → Files
  pub async_logging : Option (List ℕ × Logging)
  pub use_async_logging : Bool

-- The variables at the start of a program without NDEBUG.
abbrev pub initial_logger : (List ℕ → Files) → Logger
initial_logger disk = record {
  log_level = level_debug;
  log_file_name = [];
  ofs = none;
  console = [];
  disk = disk;
  async_logging = none;
  use_async_logging = false;
}

abbrev pub put_files : List ℕ → Files → (List ℕ → Files) → List ℕ → Files
put_files name fs disk q = if same_text q name then fs else disk q

abbrev pub set_log_level : Level → Logger → Logger
set_log_level level l = record l { log_level = level }

abbrev pub is_named : List ℕ → Bool
is_named name = not (is_empty name) && not (same_text name stdout_name)

-- `opens` tells whether the file can be opened for appending.
unfoldable pub set_log_file : Bool → List ℕ → Logger → Logger
set_log_file opens name l =
    let closed = if is_named l.log_file_name then none else l.ofs in
    record l {
      ofs = if same_text name stdout_name then closed else if opens then some name else none;
      log_file_name = name;
    }

-- A line written by the calling thread.
unfoldable pub write_sync : List ℕ → Logger → Logger
write_sync output l =
    if not (is_named l.log_file_name)
    then record l { console = l.console ++ output }
    else elim l.ofs [
      | none ↦ l
      | some name ↦ record l {
        disk = put_files name (write_buffer true output (l.disk name)) l.disk;
      }
    ]

unfoldable pub append_to_async_log : List ℕ → Logger → Outcome Logger
append_to_async_log output l = elim l.async_logging [
  | none ↦ ok l
  | some (name, a) ↦ (do a' ← log output a; ok (record l { async_logging = some (name, a') }))
]

-- The common end of `logBase` and `logSys`, but for `abort`.
unfoldable pub emit : Bool → List ℕ → Logger → Outcome Logger
unfolding write_sync append_to_async_log
emit to_abort output l =
    if l.use_async_logging && not to_abort
    then append_to_async_log output l
    else ok (write_sync output l)

-- A call that returns, or one that ends the process by `abort` with these variables.
pub data Logged : Type 0 where
  went_on : Logger → Logged
  aborted : Logger → Logged

abbrev pub end_of : Bool → Logger → Logged
end_of true l = aborted l
end_of false l = went_on l

unfoldable pub log_base : ℕ → Bool → Call → Logger → Outcome Logged
unfolding emit
log_base pid to_abort c l =
    if ltb (rank c.level) (rank l.log_level)
    then ok (went_on l)
    else (do l' ← emit to_abort (text_of pid c) l; ok (end_of to_abort l'))

-- SYSERR and SYSFATAL, which have no level.
unfoldable pub log_sys : ℕ → Bool → List ℕ → Call → Logger → Outcome Logged
unfolding emit
log_sys pid to_abort reason c l = do
  l' ← emit to_abort (system_text_of pid to_abort reason c) l
  ok (end_of to_abort l')

-- Where the thread of the running instance is when it is stopped: before a test of `running_`, or
-- behind one, in its wait, so that it ends that round first. A round rolls the file at a size, and its
-- files open or not.
pub data Place : Type 0 where
  at_test : Place
  in_wait : ℕ → (ℕ → Bool) → Place

-- What the thread does until it can be joined. `opens` tells whether the file of the last flush opens.
unfoldable pub run_down : Place → Bool → Logging → Outcome Logging
run_down at_test opens a = ok (final_flush opens a)
run_down (in_wait roll_size opened) opens a = do
  a' ← round roll_size opened a
  ok (final_flush opens a')

-- `stop` of the running instance, which joins its thread, and then its destruction.
unfoldable pub stop_async : Place → Bool → Logger → Outcome Logger
unfolding run_down
stop_async place opens l = elim l.async_logging [
  | none ↦ ok l
  | some (name, a) ↦ (do
    a' ← run_down place opens a
    ok (record l { disk = put_files name a'.files l.disk; async_logging = none }))
]

unfoldable pub set_async_logging : Place → Bool → List ℕ → Logger → Outcome Logger
unfolding stop_async
set_async_logging place opens basename l = do
  l' ← stop_async place opens l
  let name = log_file_of basename
  ok (record l' { async_logging = some (name, initial (l'.disk name)); use_async_logging = true })

unfoldable pub disable_async_logging : Place → Bool → Logger → Outcome Logger
unfolding stop_async
disable_async_logging place opens l = do
  l' ← stop_async place opens l
  ok (record l' { use_async_logging = false })
