-- ===== src/Channel.antt =====
-- include/knetlib/Channel.h and src/Channel.cpp: the events that a descriptor is watched for, and
-- the dispatch of the events that came. `update` and what calls it stand in Epoll.
pub mod Masks
pub mod Dispatch
use Prim.Native.Nat.{bit_and, bit_or}
use knet_lib.Common.{
  ℕ, ◌-◌, ◌^◌, ◌==◌, Bool, true, false, not, ◌&&◌, Option, none, some, if◌then◌else◌, Outcome, ok,
  ◌>>=◌, ◌>>◌, check,
}

abbrev pub epollin : ℕ
epollin = 0x001

abbrev pub epollpri : ℕ
epollpri = 0x002

abbrev pub epollout : ℕ
epollout = 0x004

abbrev pub epollerr : ℕ
epollerr = 0x008

abbrev pub epollhup : ℕ
epollhup = 0x010

abbrev pub epollrdhup : ℕ
epollrdhup = 0x2000

-- `mask & bits` as a condition.
abbrev pub has : ℕ → ℕ → Bool
has mask bits = not (bit_and mask bits == 0)

-- `mask & ~bits` of an unsigned of 32 bits.
abbrev pub without : ℕ → ℕ → ℕ
without mask bits = bit_and mask (2 ^ 32 - 1 - bits)

-- The callbacks stand apart, in `Callbacks`; the weak pointer of `tie` is asked by its user.
pub record Channel : Type 0 where
  pub pooling : Bool
  pub fd : ℕ
  pub tied : Bool
  pub events : ℕ
  pub revents : ℕ
  pub handling_events : Bool

unfoldable pub new_channel : ℕ → Channel
new_channel fd = record {
  pooling = false;
  fd = fd;
  tied = false;
  events = 0;
  revents = 0;
  handling_events = false;
}

abbrev pub is_none_events : Channel → Bool
is_none_events c = c.events == 0

pub set_revents : ℕ → Channel → Channel
set_revents revents c = record c { revents = revents }

unfoldable pub tie : Channel → Channel
tie c = record c { tied = true }

abbrev pub is_reading : Channel → Bool
is_reading c = has c.events epollin

abbrev pub is_writing : Channel → Bool
is_writing c = has c.events epollout

-- The masks that enableRead, enableWrite, disableRead, disableWrite and disableAll leave.
unfoldable pub read_enabled : Channel → Channel
read_enabled c = record c { events = bit_or c.events (bit_or epollin epollpri) }

unfoldable pub write_enabled : Channel → Channel
write_enabled c = record c { events = bit_or c.events epollout }

unfoldable pub read_disabled : Channel → Channel
read_disabled c = record c { events = without c.events epollin }

unfoldable pub write_disabled : Channel → Channel
write_disabled c = record c { events = without c.events epollout }

unfoldable pub all_disabled : Channel → Channel
all_disabled c = record c { events = 0 }

-- ~Channel asserts that no event is being handled.
unfoldable pub destroy_channel : Channel → Outcome (Unit {0})
destroy_channel c = check (not c.handling_events)

-- The four std::function members; `none` is an empty one. `S` is what a callback can change, the
-- channel included.
pub record Callbacks (S : Type 0) : Type 0 where
  pub on_read : Option (S → Outcome S)
  pub on_write : Option (S → Outcome S)
  pub on_close : Option (S → Outcome S)
  pub on_error : Option (S → Outcome S)

abbrev pub call : {S : Type 0} → Option (S → Outcome S) → S → Outcome S
call none s = ok s
call (some f) s = f s

module _ {S : Type 0} (channel : S → Channel) (put : Channel → S → S)
    (callbacks : Callbacks S) where
  abbrev pub fire : Bool → Option (S → Outcome S) → S → Outcome S
  fire b f s = if b then call f s else ok s

  -- revents_ is read anew for each test.
  unfoldable pub handle_event_with_guard : S → Outcome S
  handle_event_with_guard s0 = do
    let s = put (record (channel s0) { handling_events = true }) s0
    let r1 = (channel s).revents
    s1 ← fire (has r1 epollhup && not (has r1 epollin)) callbacks.on_close s
    s2 ← fire (has (channel s1).revents epollerr) callbacks.on_error s1
    let readable = bit_or (bit_or epollin epollpri) epollrdhup
    s3 ← fire (has (channel s2).revents readable) callbacks.on_read s2
    s4 ← fire (has (channel s3).revents epollout) callbacks.on_write s3
    ok (put (record (channel s4) { handling_events = false }) s4)

  -- `alive`: the object that the channel is tied to still exists.
  unfoldable pub handle_events : Bool → Bool → S → Outcome S
  handle_events in_loop alive s = do
    check in_loop
    if (channel s).tied && not alive then ok s else handle_event_with_guard s
