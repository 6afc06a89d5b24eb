-- ===== src/Acceptor/Listening.antt =====
-- Acceptor: a listener is made, listens, and meets an error.
use knet_lib.Common.{
  ℕ, ◌≡◌, refl, true, false, Option, none, some, Outcome, ok, crash, fatal, Returns, Returns-bind,
  inr, ◌>>=◌, ap,
}
use knet_lib.Channel.{Channel, has, new_channel, read_enabled, destroy_channel}
use knet_lib.Channel.Dispatch.{readable_mask, read_crashes}
use knet_lib.Epoll.{Kernel, IsEpoll, enable_read}
use knet_lib.Epoll.Registered.{Updated, update_channel-Returns}
use knet_lib.Acceptor.{
  accept_failed, accept_one, is_passing, Acceptor, new_acceptor, listen, destroy_acceptor, Serving,
  handle_read, dispatch, channel_of, with_channel,
}

module _ (kernel : Kernel) where
  -- The descriptor is registered, for input, if it was not closed.
  pub record IsListening (fd : ℕ) (k : kernel.Interest) (r : Acceptor kernel × kernel.Interest)
      : Type 0 where
    flag : r.0.listening ≡ true
    registered : Updated kernel (read_enabled (new_channel fd)) k (r.0.accept_channel, r.1)
    closes : destroy_acceptor kernel r.0 ≡ ok fd

  pub listen-IsListening :
      IsEpoll kernel
      → (fd : ℕ) (k : kernel.Interest) → kernel.watched k fd ≡ none
      → Returns
          (IsListening fd k)
          (new_acceptor kernel (some fd) false false >>= λ a. listen kernel false true a k)
  unfolding new_acceptor listen destroy_acceptor destroy_channel enable_read new_channel
      read_enabled
  listen-IsListening epoll fd k free =
      Returns-bind (Updated kernel (read_enabled (new_channel fd)) k) (IsListening fd k)
        (enable_read kernel true (new_channel fd) k) _
        (update_channel-Returns kernel epoll (read_enabled (new_channel fd)) k (λ p. free)
          (inr refl))
        (λ r u. record {
          flag = refl;
          registered = u;
          closes = rw (ap (λ (c : Channel). c.handling_events) u.0) refl;
        })

  -- An event at a listening socket for which accept4 fails by any error but ECONNABORTED and
  -- EMFILE, as by EAGAIN when the peer is already gone, ends the process.
  pub other_error_stops :
      (S : Type 0) (callback : Option (ℕ → S → Outcome S)) (errno : ℕ) (s : Serving kernel S)
      → is_passing errno ≡ false
      → has (channel_of kernel S s).revents readable_mask ≡ true
      → dispatch kernel S (accept_failed errno) callback true s ≡ crash fatal
  unfolding dispatch handle_read accept_one
  other_error_stops S callback errno s h r =
      read_crashes (channel_of kernel S) (with_channel kernel S)
        (handle_read kernel S (accept_failed errno) callback true) s fatal r (rw h refl)
