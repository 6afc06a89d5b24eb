-- ===== src/Epoll.antt =====
-- include/knetlib/Epoll.h and src/Epoll.cpp: the channels that a loop has registered with the
-- kernel. The kernel's side of epoll_ctl is a parameter.
pub mod Registered
pub mod Changes
pub mod Watched
pub mod Example
mod Tests
use knet_lib.Common.{
  ℕ, zero, suc, ◌+◌, ◌*◌, ◌==◌, ◌≡◌, ◌≢◌, ◌⊎◌, Bool, true, false, not, ◌&&◌, ◌||◌, List, [], ◌∷◌,
  ◌++◌, map, Option, none, some, if◌then◌else◌, Outcome, ok, crash, exit_failure, check, ◌>>=◌,
  ◌>>◌, length,
}
use knet_lib.Sys.{enoent, ebadf, eintr}
use knet_lib.Channel.{
  Channel, is_none_events, set_revents, is_reading, is_writing, read_enabled, write_enabled,
  read_disabled, write_disabled, all_disabled,
}

pub data Ctl : Type 0 where
  add mod_ del : Ctl

-- `ctl op fd events k` is epoll_ctl on the interest list `k`: errno if it fails, and the list after.
-- `watched k fd` is the mask that `fd` is registered with.
pub record Kernel : Type 1 where
  pub Interest : Type 0
  pub watched : Interest → ℕ → Option ℕ
  pub ctl : Ctl → ℕ → ℕ → Interest → Option ℕ × Interest

-- The errors that `updateChannel` passes over.
abbrev pub is_tolerated : Ctl → ℕ → Bool
is_tolerated add errno = errno == ebadf
is_tolerated mod_ errno = errno == enoent || errno == ebadf
is_tolerated del errno = errno == enoent || errno == ebadf

abbrev pub accepted : Ctl → Option ℕ → Bool
accepted op none = true
accepted op (some errno) = is_tolerated op errno

-- epoll_ctl(2), where the kernel has memory and watches to spare: a descriptor that is not on the
-- list can be added, unless it is closed; a change or removal fails only for a descriptor that is
-- not on the list or is closed; a success leaves the mask that was asked for; a closed descriptor
-- is on no list; other descriptors are left alone.
module _ (kernel : Kernel) where
  open kernel use {Interest, watched, ctl}

  pub record IsEpoll : Type 0 where
    pub add_free :
        (fd events : ℕ) (k : Interest)
        → watched k fd ≡ none
        → accepted add (ctl add fd events k).0 ≡ true
    pub mod_any : (fd events : ℕ) (k : Interest) → accepted mod_ (ctl mod_ fd events k).0 ≡ true
    pub del_any : (fd events : ℕ) (k : Interest) → accepted del (ctl del fd events k).0 ≡ true
    pub add_sets :
        (fd events : ℕ) (k : Interest)
        → (ctl add fd events k).0 ≡ none
        → watched (ctl add fd events k).1 fd ≡ some events
    pub mod_sets :
        (fd events : ℕ) (k : Interest)
        → (ctl mod_ fd events k).0 ≡ none
        → watched (ctl mod_ fd events k).1 fd ≡ some events
    pub del_clears :
        (fd events : ℕ) (k : Interest)
        → (ctl del fd events k).0 ≡ none
        → watched (ctl del fd events k).1 fd ≡ none
    pub missing :
        (op : Ctl) (fd events : ℕ) (k : Interest) (errno : ℕ)
        → (ctl op fd events k).0 ≡ some errno
        → is_tolerated op errno ≡ true
        → watched (ctl op fd events k).1 fd ≡ none
    pub others :
        (op : Ctl) (fd events : ℕ) (k : Interest) (fd' : ℕ)
        → fd' ≢ fd
        → watched (ctl op fd events k).1 fd' ≡ watched k fd'

-- How many events one epoll_wait can return.
abbrev pub initial_events : ℕ
initial_events = 128

-- What epoll_wait answers: for each event the channel that it was registered with and its mask.
pub data WaitResult : Type 0 where
  ready : List (ℕ × ℕ) → WaitResult
  wait_failed : ℕ → WaitResult

-- The channels, by the pointers that epoll_data holds.
abbrev pub Channels : Type 0
Channels = ℕ → Channel

abbrev pub set_at : ℕ → ℕ → Channels → Channels
set_at p revents channels q = if p == q then set_revents revents (channels q) else channels q

-- The loop over the events.
unfoldable pub collect : List (ℕ × ℕ) → Channels → List ℕ → Channels × List ℕ
collect [] channels active = (channels, active)
collect ((p, revents) ∷ events) channels active =
    collect events (set_at p revents channels) (active ++ p ∷ [])

-- `capacity` is the size of `events_`; `wait` is epoll_wait with the room that it is given.
unfoldable pub poll :
    Bool → (ℕ → WaitResult) → ℕ → Channels → List ℕ → Outcome (ℕ × Channels × List ℕ)
poll in_loop wait capacity channels active = do
  check in_loop
  elim (wait capacity) [
    | wait_failed errno ↦
        if errno == eintr then ok (capacity, channels, active) else crash exit_failure
    | ready events ↦
        (let (channels', active') = collect events channels active in
          let grown = if length events == capacity then 2 * capacity else capacity in
          if length events == 0
          then ok (capacity, channels, active)
          else ok (grown, channels', active'))
  ]

module _ (kernel : Kernel) where
  open kernel use {Interest, ctl}

  -- The private overload: the system call and its errors.
  unfoldable pub control : Ctl → Channel → Interest → Outcome Interest
  control op c k =
      let (result, k') = ctl op c.fd c.events k in
      if accepted op result then ok k' else crash exit_failure

  unfoldable pub update_channel : Bool → Channel → Interest → Outcome (Channel × Interest)
  unfolding control
  update_channel in_loop c k = do
    check in_loop
    if not c.pooling
        then (do
          check (not (is_none_events c))
          let c' = record c { pooling = true }
          k' ← control add c' k
          ok (c', k'))
        else if not (is_none_events c)
        then (do k' ← control mod_ c k; ok (c, k'))
        else (do let c' = record c { pooling = false }; k' ← control del c' k; ok (c', k'))

  unfoldable pub remove_channel : Bool → Channel → Interest → Outcome (Channel × Interest)
  unfolding control
  remove_channel in_loop c k = do
    check in_loop
    if c.pooling
        then (do k' ← control del c k; ok (record c { pooling = false }, k'))
        else ok (c, k)

  -- Channel::enableRead and the like: the mask, then `update`.
  unfoldable pub enable_read : Bool → Channel → Interest → Outcome (Channel × Interest)
  enable_read in_loop c k = update_channel in_loop (read_enabled c) k

  unfoldable pub enable_write : Bool → Channel → Interest → Outcome (Channel × Interest)
  enable_write in_loop c k = update_channel in_loop (write_enabled c) k

  unfoldable pub disable_read : Bool → Channel → Interest → Outcome (Channel × Interest)
  disable_read in_loop c k = update_channel in_loop (read_disabled c) k

  unfoldable pub disable_write : Bool → Channel → Interest → Outcome (Channel × Interest)
  disable_write in_loop c k = update_channel in_loop (write_disabled c) k

  unfoldable pub disable_all : Bool → Channel → Interest → Outcome (Channel × Interest)
  disable_all in_loop c k = update_channel in_loop (all_disabled c) k

  -- Channel::remove asserts that the channel is registered.
  unfoldable pub remove : Bool → Channel → Interest → Outcome (Channel × Interest)
  remove in_loop c k = do check c.pooling; remove_channel in_loop c k
