-- ===== src/Connector.antt =====
-- include/knetlib/Connector.h and src/Connector.cpp: one attempt to connect. What connect(2) and
-- SO_ERROR answer are arguments. A callback is the last thing a call does, so that the call returns
-- which one, if any, is due: a `Report`.
pub mod Attempts
use knet_lib.Common.{
  ℕ, ◌==◌, Bool, true, false, not, ◌&&◌, Option, none, some, if◌then◌else◌, Outcome, ok, check,
  ◌>>=◌, ◌>>◌,
}
use knet_lib.Sys.{einprogress}
use knet_lib.Channel.{Channel, new_channel}
use knet_lib.Epoll.{Kernel, enable_write, remove_channel}

pub data Report : Type 0 where
  nothing reported_error : Report
  new_connection : ℕ → Report

module _ (kernel : Kernel) where
  open kernel use {Interest}

  -- `has_error_callback` and `has_callback` say which callbacks are set.
  pub record Connector : Type 0 where
    pub sockfd : ℕ
    pub connected : Bool
    pub started : Bool
    pub channel : Channel
    pub has_callback : Bool
    pub has_error_callback : Bool

  -- The constructor; `fd` is the socket that it made.
  abbrev pub new_connector : ℕ → Connector
  new_connector fd = record {
    sockfd = fd;
    connected = false;
    started = false;
    channel = new_channel fd;
    has_callback = false;
    has_error_callback = false;
  }

  -- The last part of `handleWrite`, for the errno that it found.
  unfoldable pub conclude : ℕ → Connector → Connector × Report
  conclude errno c =
      if not (errno == 0)
      then (c, if c.has_error_callback then reported_error else nothing)
      else if c.has_callback
      then (record c { connected = true }, new_connection c.sockfd)
      else (c, nothing)

  -- `so_error` is the pending error that getsockopt reads; it does not fail on a socket.
  unfoldable pub handle_write :
      ℕ → Bool → Connector → Interest → Outcome ((Connector × Report) × Interest)
  unfolding conclude
  handle_write so_error here c k = do
    check here
    check c.started
    (ch, k') ← remove_channel kernel here c.channel k
    ok (conclude so_error (record c { channel = ch }), k')

  -- `result` is the errno of connect(2), if it failed.
  unfoldable pub start :
      Option ℕ → ℕ → Bool → Connector → Interest → Outcome ((Connector × Report) × Interest)
  unfolding handle_write
  start result so_error here c k = do
    check here
    check (not c.started)
    let c' = record c { started = true }
    elim result [
      | none ↦ handle_write so_error here c' k
      | some errno ↦ if not (errno == einprogress) then handle_write so_error here c' k else (do
        (ch, k') ← enable_write kernel here c'.channel k
        ok ((record c' { channel = ch }, nothing), k'))
    ]

  -- The destructor takes a channel that still waits off the poller.
  unfoldable pub destroy : Bool → Connector → Interest → Outcome Interest
  destroy here c k =
      if c.started && (not c.connected && c.channel.pooling)
      then (do (ch, k') ← remove_channel kernel here c.channel k; ok k')
      else ok k
