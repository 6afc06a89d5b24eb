-- ===== src/TcpConnection/Sound.antt =====
-- TcpConnection: the invariant of a connection between two events, and its steps.
use knet_lib.Common.{
  ℕ, ◌+◌, ◌≤◌, ◌<◌, ◌≡◌, refl, Bool, true, false, if◌then◌else◌, List, [], ◌∷◌, ◌++◌, length,
  Outcome, Returns, Returns-bind,
}
use knet_lib.Buffer.{contents}
use knet_lib.Buffer.Valid.{IsValid}
use knet_lib.Channel.{Channel, is_writing}
use knet_lib.Channel.Masks.{IsMask}
use knet_lib.Epoll.{Kernel}
use knet_lib.Epoll.Registered.{IsUnlisted}
use knet_lib.TcpConnection.{Conn, Task, is_disconnected, on_channel, queue_in_loop}

module _ (kernel : Kernel) where
  -- The channel waits for room to write exactly while the output buffer holds bytes; a connection
  -- that is not closed is then registered.
  pub record IsSound (c : Conn kernel) : Type 0 where
    pub input_valid : IsValid c.input_buffer
    pub output_valid : IsValid c.output_buffer
    pub mask : IsMask c.channel.events
    pub unlisted : IsUnlisted kernel c.channel c.interest
    pub idle : is_writing c.channel ≡ false → contents c.output_buffer ≡ []
    pub busy : is_writing c.channel ≡ true → 0 < length (contents c.output_buffer)
    pub armed :
        is_writing c.channel ≡ true → is_disconnected c.state ≡ false → c.channel.pooling ≡ true

  -- All bytes that were accepted so far: those that write(2) took, then those that wait.
  abbrev pub stream : Conn kernel → List ℕ
  stream c = c.wire ++ contents c.output_buffer

  -- What writing changes neither in the connection nor in its input.
  pub record SameConn (c d : Conn kernel) : Type 0 where
    pub same_state : d.state ≡ c.state
    pub same_input : d.input_buffer ≡ c.input_buffer
    pub same_mark : d.high_water_mark ≡ c.high_water_mark
    pub same_fd : d.channel.fd ≡ c.channel.fd

  -- A sound connection after some of `bytes` were accepted behind what `c` had accepted.
  pub record Accepted (c : Conn kernel) (bytes : List ℕ) (d : Conn kernel) : Type 0 where
    pub sound : IsSound d
    pub bytes_kept : stream d ≡ stream c ++ bytes
    -- How far the output buffer can have grown.
    pub room : d.output_buffer.writer_index ≤ c.output_buffer.writer_index + length bytes
    pub same : SameConn c d

  -- `d` is `c` with its channel and the loop's registrations changed as `Q` says.
  abbrev pub AtChannel : (Channel × kernel.Interest → Type 0) → Conn kernel → Conn kernel → Type 0
  AtChannel Q c d =
      (r : Channel × kernel.Interest) × (d ≡ record c { channel = r.0; interest = r.1 }) × Q r

  pub on_channel-Returns :
      (Q : Channel × kernel.Interest → Type 0)
      (f : Bool → Channel → kernel.Interest → Outcome (Channel × kernel.Interest)) (c : Conn kernel)
      → Returns Q (f true c.channel c.interest)
      → Returns (AtChannel Q c) (on_channel kernel f true c)
  on_channel-Returns Q f c h =
      Returns-bind Q (AtChannel Q c) (f true c.channel c.interest) _ h (λ r q. (r, refl, q))

  -- A task is queued, or not.
  pub tasks_if :
      (b : Bool) (t : List Task) (c : Conn kernel)
      → (t' : List Task) × ((if b then record c { tasks = t } else c) ≡ record c { tasks = t' })
  tasks_if true t c = (t, refl)
  tasks_if false t c = (c.tasks, refl)

  pub if_queued :
      (P : Conn kernel → Type 0) (b : Bool) (task : Task) (c : Conn kernel)
      → ((t : List Task) → P (record c { tasks = t }))
      → P (if b then queue_in_loop kernel task c else c)
  if_queued P true task c h = h (c.tasks ++ task ∷ [])
  if_queued P false task c h = h c.tasks

  -- What the kernel took, the half-close and the tasks do not bear on the invariant.
  pub IsSound-wire :
      {c : Conn kernel} (wire : List ℕ) (t : List Task)
      → IsSound c
      → IsSound (record c { wire = wire; tasks = t })
  IsSound-wire wire t s = record {
    input_valid = s.input_valid;
    output_valid = s.output_valid;
    mask = s.mask;
    unlisted = s.unlisted;
    idle = s.idle;
    busy = s.busy;
    armed = s.armed;
  }
