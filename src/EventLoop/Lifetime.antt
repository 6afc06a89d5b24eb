-- ===== src/EventLoop/Lifetime.antt =====
-- src/EventLoop.cpp: a loop is made and destroyed, with its wake-up channel and the thread's pointer
-- to its loop. A loop is known by its address; the timer queue, which has a channel of its own, is
-- left to TimerQueue.
use knet_lib.Common.{
  subst, false≢true, Returns-ok, ℕ, ◌==◌, ◌≡◌, refl, sym, ap, ◌∙◌, eq→==, Bool, true, false, Option,
  none, some, if◌then◌else◌, Outcome, ok, crash, assertion, exit_failure, check, ◌>>=◌, ◌>>◌, inl,
  inr, Returns, Returns-bind, Returns-map,
}
use knet_lib.Channel.{
  Channel, new_channel, read_enabled, all_disabled, destroy_channel, is_none_events,
}
use knet_lib.Epoll.{Kernel, IsEpoll, enable_read, disable_all, remove_channel, update_channel}
use knet_lib.Epoll.Registered.{Updated, update_channel-Returns}

-- `t_Eventloop`, the calling thread's loop.
abbrev pub Current : Type 0
Current = Option ℕ

abbrev pub is_free : Current → Bool
is_free none = true
is_free (some l) = false

abbrev pub is_loop : ℕ → Current → Bool
is_loop this none = false
is_loop this (some l) = l == this

module _ (kernel : Kernel) where
  open kernel use {Interest}

  -- The wake-up channel, the registrations of the loop's poller, and the thread's pointer.
  pub record Made : Type 0 where
    pub wakeup_channel : Channel
    pub interest : Interest
    pub current : Current

  -- The constructor of the loop `this`; `opened` is what eventfd(2) gives. The loop belongs to the
  -- thread that makes it.
  unfoldable pub construct : Option ℕ → ℕ → Interest → Current → Outcome Made
  construct none this k current = crash exit_failure
  construct (some wakeupfd) this k current = do
    (channel, k') ← enable_read kernel true (new_channel wakeupfd) k
    check (is_free current)
    ok (record { wakeup_channel = channel; interest = k'; current = some this })

  -- The destructor, which may run in another thread; `m.current` is the calling thread's pointer.
  unfoldable pub destruct : Bool → ℕ → Made → Outcome Made
  destruct here this m = do
    (channel, k) ←
        (if here
          then disable_all kernel true m.wakeup_channel m.interest
          else if m.wakeup_channel.pooling
          then remove_channel kernel here m.wakeup_channel m.interest
          else ok (m.wakeup_channel, m.interest))
    destroy_channel channel
    if here
        then (do
          check (is_loop this m.current)
          ok (record { wakeup_channel = channel; interest = k; current = none }))
        else ok (record m { wakeup_channel = channel; interest = k })

  -- A new loop's wake-up channel is registered, for reading, and no event of it is handled.
  pub record IsMade (fd this : ℕ) (m : Made) : Type 0 where
    pub owner : m.current ≡ some this
    listed : m.wakeup_channel.pooling ≡ true
    idle : m.wakeup_channel.handling_events ≡ false
    same_fd : m.wakeup_channel.fd ≡ fd

  module _ (epoll : IsEpoll kernel) (fd : ℕ) (k : Interest)
      (free : kernel.watched k fd ≡ none) where
    enabled :
        Returns
          (Updated kernel (read_enabled (new_channel fd)) k)
          (enable_read kernel true (new_channel fd) k)
    unfolding enable_read new_channel read_enabled
    enabled =
        update_channel-Returns kernel epoll (read_enabled (new_channel fd)) k (λ p. free)
          (inr (by_mask))
      where
        by_mask : is_none_events (read_enabled (new_channel fd)) ≡ false
        by_mask = refl

    pub construct-IsMade : (this : ℕ) → Returns (IsMade fd this) (construct (some fd) this k none)
    unfolding construct read_enabled new_channel
    construct-IsMade this =
        Returns-bind (Updated kernel (read_enabled (new_channel fd)) k) (IsMade fd this)
          (enable_read kernel true (new_channel fd) k) _ enabled
          (λ r u. record {
            owner = refl;
            listed = ap (λ (c : Channel). c.pooling) u.0;
            idle = ap (λ (c : Channel). c.handling_events) u.0;
            same_fd = ap (λ (c : Channel). c.fd) u.0;
          })

    -- The wake-up channel is disabled.
    disabled :
        {this : ℕ} (m : Made)
        → IsMade fd this m
        → Returns
            (λ r. (r.0.handling_events ≡ false) × (kernel.watched r.1 fd ≡ none))
            (disable_all kernel true m.wakeup_channel m.interest)
    unfolding disable_all all_disabled
    disabled m h =
        let c = all_disabled m.wakeup_channel in
        Returns-map (Updated kernel c m.interest) _ (update_channel kernel true c m.interest)
          (update_channel-Returns kernel epoll c m.interest (λ p. absurd (cc (p, h.listed)))
            (inl h.listed))
          (λ r u. (
            ap (λ (c : Channel). c.handling_events) u.0 ∙ h.idle,
            elim u.1 [
              | inl w ↦
                  subst (λ n. kernel.watched r.1 n ≡ none)
                    (ap (λ (c : Channel). c.fd) u.0 ∙ h.same_fd) w
              | inr w ↦ absurd (false≢true (sym (ap (λ (c : Channel). c.pooling) u.0) ∙ w.0))
            ],
          ))

    -- A loop that is made and destroyed in a thread without one, on an eventfd that is not
    -- registered, leaves the thread without a loop and the eventfd unregistered.
    pub construct-destruct :
        (this : ℕ)
        → Returns
            (λ m. (m.current ≡ none) × (kernel.watched m.interest fd ≡ none))
            (construct (some fd) this k none >>= destruct true this)
    unfolding destruct destroy_channel
    construct-destruct this =
        Returns-bind (IsMade fd this) _ (construct (some fd) this k none) _ (construct-IsMade this)
          (λ m h.
            Returns-bind _ _ (disable_all kernel true m.wakeup_channel m.interest) _ (disabled m h)
              (λ r d. rw (d.0, h.owner, eq→== this this refl) (refl, d.1)))

    -- A loop, made on an eventfd that is not registered, that another thread destroys ends the
    -- process at an assertion of the poller.
    pub destroyed_elsewhere :
        (this : ℕ) → (construct (some fd) this k none >>= destruct false this) ≡ crash assertion
    unfolding destruct remove_channel
    destroyed_elsewhere this =
        let (m, e, h) =
          Returns-ok (IsMade fd this) (construct (some fd) this k none) (construct-IsMade this) in
        rw (e, h.listed) refl

    pub second_loop_refused :
        (this other : ℕ) → construct (some fd) this k (some other) ≡ crash assertion
    unfolding construct
    second_loop_refused this other =
        let (r, e, u) = Returns-ok _ (enable_read kernel true (new_channel fd) k) enabled in
        rw e refl
