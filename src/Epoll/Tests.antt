-- ===== src/Epoll/Tests.antt =====
-- The theorems of Epoll and of the event masks at concrete inputs.
use knet_lib.Common.{ℕ, ◌≢◌, refl, inl, true, false, Option, none, some, Returns}
use knet_lib.Channel.{Channel}
use knet_lib.Epoll.{Ctl, add, mod_, del, update_channel}
use knet_lib.Epoll.Watched.{IsOpen, IsWatched, update_channel-IsWatched}
use knet_lib.Sys.{ebadf}
use knet_lib.Epoll.Example.{set_mask, quiet_kernel, quiet_kernel-IsEpoll}

-- A channel that asks for input, urgent data and room to write, and is on no list.
abbrev eager : Channel
eager = record {
  pooling = false;
  fd = 5;
  tied = false;
  events = 7;
  revents = 0;
  handling_events = false;
}

abbrev idle_channel : Channel
idle_channel = record eager { events = 0 }

abbrev empty_list : ℕ → Option ℕ
empty_list fd = none

-- The kernel that no call fails in.
eager-IsOpen : IsOpen quiet_kernel 5
eager-IsOpen = record { not_closed = never; found = λ events k h e. absurd (cc (e)) }
  where
    never :
        (op : Ctl) (events : ℕ) (k : ℕ → Option ℕ) → (quiet_kernel.ctl op 5 events k).0 ≢ some ebadf
    never add events k e = cc
    never mod_ events k e = cc
    never del events k e = cc

-- The list on which the channel is, for fewer events.
abbrev before : ℕ → Option ℕ
before = set_mask 5 (some 3) empty_list

abbrev watched_channel : Channel
watched_channel = record eager { pooling = true }

update_channel-IsWatched_example :
    Returns
      (IsWatched quiet_kernel watched_channel before)
      (update_channel quiet_kernel true watched_channel before)
update_channel-IsWatched_example =
    update_channel-IsWatched quiet_kernel quiet_kernel-IsEpoll watched_channel before eager-IsOpen
      (λ p. absurd (cc (p))) (λ p e. absurd (cc (e))) (inl refl)
