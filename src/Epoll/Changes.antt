-- ===== src/Epoll/Changes.antt =====
-- Channel::enableRead and its kin with the poller behind them.
use knet_lib.Common.{
  ℕ, ◌==◌, ◌≡◌, ◌⊎◌, inl, inr, refl, sym, ap, subst, ◌∙◌, Bool, true, false, not, false≢true,
  Returns, Returns-map,
}
use knet_lib.Channel.{
  Channel, epollpri, is_none_events, is_reading, is_writing, read_enabled, write_enabled,
  read_disabled, write_disabled,
}
use knet_lib.Channel.Masks.{
  IsMask, Watches, is_urgent, read_enabled-Watches, write_enabled-Watches, read_disabled-Watches,
  write_disabled-Watches, has-ne-zero,
}
use knet_lib.Epoll.{
  Kernel, IsEpoll, update_channel, enable_read, enable_write, disable_read, disable_write,
}
use knet_lib.Epoll.Registered.{IsUnlisted, Agrees, SameBut, Updated, update_channel-Returns}

module _ (kernel : Kernel) where
  open kernel use {Interest}

  pub Agrees-IsUnlisted : (c : Channel) (k : Interest) → Agrees kernel c k → IsUnlisted kernel c k
  Agrees-IsUnlisted c k (inl u) p = u
  Agrees-IsUnlisted c k (inr w) p = absurd (false≢true (sym p ∙ w.0))

  -- What a change of the mask of `c` comes to.
  pub record Changed (c : Channel) (k : Interest) (reading urgent writing : Bool)
      (r : Channel × Interest) : Type 0 where
    pub watches : Watches r.0.events reading urgent writing
    pub pooling : r.0.pooling ≡ not (is_none_events r.0)
    pub same_fd : r.0.fd ≡ c.fd
    pub same_tie : r.0.tied ≡ c.tied
    pub agrees : Agrees kernel r.0 r.1
    pub others : SameBut kernel c.fd k r.1

  module _ (epoll : IsEpoll kernel) where
    change :
        (c : Channel) (events : ℕ) (k : Interest) (reading urgent writing : Bool)
        → Watches events reading urgent writing
        → IsUnlisted kernel c k
        → (c.pooling ≡ true) ⊎ ((events == 0) ≡ false)
        → Returns
            (Changed c k reading urgent writing)
            (update_channel kernel true (record c { events = events }) k)
    change c events k reading urgent writing w u h =
        let d : Channel = record c { events = events } in
        Returns-map (Updated kernel d k) (Changed c k reading urgent writing)
          (update_channel kernel true d k) (update_channel-Returns kernel epoll d k u h)
          (λ r p. record {
            watches = subst (λ (x : Channel). Watches x.events reading urgent writing) (sym p.0) w;
            pooling = subst (λ (x : Channel). x.pooling ≡ not (is_none_events x)) (sym p.0) refl;
            same_fd = ap (λ (x : Channel). x.fd) p.0;
            same_tie = ap (λ (x : Channel). x.tied) p.0;
            agrees = p.1;
            others = p.2;
          })

    module _ (c : Channel) (k : Interest) (m : IsMask c.events) (u : IsUnlisted kernel c k) where
      pub enable_read-Changed :
          Returns (Changed c k true true (is_writing c)) (enable_read kernel true c k)
      unfolding enable_read read_enabled
      enable_read-Changed =
          let w = read_enabled-Watches c m in
          change c (read_enabled c).events k true true (is_writing c) w u
            (inr (has-ne-zero _ _ w.reads))

      pub enable_write-Changed :
          Returns (Changed c k (is_reading c) (is_urgent c) true) (enable_write kernel true c k)
      unfolding enable_write write_enabled
      enable_write-Changed =
          let w = write_enabled-Watches c m in
          change c (write_enabled c).events k (is_reading c) (is_urgent c) true w u
            (inr (has-ne-zero _ _ w.writes))

      pub disable_read-Changed :
          (c.pooling ≡ true) ⊎ (is_urgent c ≡ true)
          → Returns (Changed c k false (is_urgent c) (is_writing c)) (disable_read kernel true c k)
      unfolding disable_read read_disabled
      disable_read-Changed h =
          let w = read_disabled-Watches c m in
          change c (read_disabled c).events k false (is_urgent c) (is_writing c) w u (allowed w h)
        where
          allowed :
              Watches (read_disabled c).events false (is_urgent c) (is_writing c)
              → (c.pooling ≡ true) ⊎ (is_urgent c ≡ true)
              → (c.pooling ≡ true) ⊎ (((read_disabled c).events == 0) ≡ false)
          allowed w (inl p) = inl p
          allowed w (inr p) = inr (has-ne-zero _ epollpri (w.urgent ∙ p))

      pub disable_write-Changed :
          c.pooling ≡ true
          → Returns (Changed c k (is_reading c) (is_urgent c) false) (disable_write kernel true c k)
      unfolding disable_write write_disabled
      disable_write-Changed p =
          change c (write_disabled c).events k (is_reading c) (is_urgent c) false
            (write_disabled-Watches c m) u (inl p)
