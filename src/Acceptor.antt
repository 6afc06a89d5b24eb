-- ===== src/Acceptor.antt =====
-- include/knetlib/Acceptor.h and src/Acceptor.cpp: a listening socket and its channel. What the
-- system calls answer are arguments; a callback for new connections is a function of the state `S`
-- of its owner.
pub mod Listening
mod Tests
use knet_lib.Common.{
  ℕ, ◌==◌, Bool, true, false, ◌||◌, List, [], ◌∷◌, ◌++◌, Option, none, some, if◌then◌else◌, Outcome,
  ok, crash, fatal, check, ◌>>=◌, ◌>>◌,
}
use knet_lib.Sys.{econnaborted, emfile}
use knet_lib.Channel
use knet_lib.Channel.{Channel, new_channel, destroy_channel, set_revents}
use knet_lib.Channel.Dispatch.{reads_only}
use knet_lib.Epoll.{Kernel, enable_read}

-- accept4: a descriptor, or errno.
pub data AcceptResult : Type 0 where
  accepted : ℕ → AcceptResult
  accept_failed : ℕ → AcceptResult

-- The errors after which the listener goes on.
abbrev pub is_passing : ℕ → Bool
is_passing errno = errno == econnaborted || errno == emfile

-- What comes of an event: a descriptor to hand on, or nothing.
unfoldable pub accept_one : AcceptResult → Bool → Outcome (Option ℕ)
accept_one result here = do
  check here
  elim result [
    | accepted fd ↦ ok (some fd)
    | accept_failed errno ↦ if is_passing errno then ok none else crash fatal
  ]

-- SYSFATAL.
abbrev pub sysfatal : Bool → Outcome (Unit {0})
sysfatal failed = if failed then crash fatal else ok tt

module _ (kernel : Kernel) where
  open kernel use {Interest}

  pub record Acceptor : Type 0 where
    pub listening : Bool
    pub acceptfd : ℕ
    pub accept_channel : Channel

  -- The constructor: socket(2), setsockopt(2), bind(2).
  unfoldable pub new_acceptor : Option ℕ → Bool → Bool → Outcome Acceptor
  new_acceptor none reuse_fails bind_fails = crash fatal
  new_acceptor (some fd) reuse_fails bind_fails = do
    sysfatal reuse_fails
    sysfatal bind_fails
    ok (record { listening = false; acceptfd = fd; accept_channel = new_channel fd })

  -- The destructor, with ~Channel: the descriptor that it closes.
  unfoldable pub destroy_acceptor : Acceptor → Outcome ℕ
  destroy_acceptor a = do destroy_channel a.accept_channel; ok a.acceptfd

  -- The read callback that `listen` sets is in `dispatch`.
  unfoldable pub listen : Bool → Bool → Acceptor → Interest → Outcome (Acceptor × Interest)
  listen listen_fails here a k = do
    check here
    sysfatal listen_fails
    (channel, k') ← enable_read kernel here a.accept_channel k
    ok (record a { listening = true; accept_channel = channel }, k')

  module _ (S : Type 0) where
    -- The listener with the state of its owner, and the descriptors that it closed again.
    pub record Serving : Type 0 where
      pub acceptor : Acceptor
      pub owner : S
      pub closed : List ℕ

    unfoldable pub handle_read :
        AcceptResult → Option (ℕ → S → Outcome S) → Bool → Serving → Outcome Serving
    handle_read result callback here s = do
      arrived ← accept_one result here
      elim arrived [
        | none ↦ ok s
        | some fd ↦ elim callback [
          | none ↦ ok (record s { closed = s.closed ++ fd ∷ [] })
          | some f ↦ do owner ← f fd s.owner; ok (record s { owner = owner })
        ]
      ]

    abbrev pub channel_of : Serving → Channel
    channel_of s = s.acceptor.accept_channel

    abbrev pub with_channel : Channel → Serving → Serving
    with_channel channel s = record s { acceptor = record s.acceptor { accept_channel = channel } }

    -- An event at the listening descriptor.
    unfoldable pub dispatch :
        AcceptResult → Option (ℕ → S → Outcome S) → Bool → Serving → Outcome Serving
    dispatch result callback here s =
        Channel.handle_events channel_of with_channel
          (reads_only channel_of with_channel (handle_read result callback here)) here true s
