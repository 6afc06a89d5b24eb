-- ===== src/Acceptor/Tests.antt =====
-- The theorems of Acceptor at concrete listeners.
use knet_lib.Common.{ℕ, ◌≡◌, refl, true, false, List, [], ◌∷◌, ◌++◌, Option, some, Outcome, ok}
use knet_lib.Epoll.Example.{quiet_kernel}
use knet_lib.Acceptor.{accepted, Serving, accept_one, handle_read}

-- The owner keeps the descriptors that it was given.
abbrev keep : Option (ℕ → List ℕ → Outcome (List ℕ))
keep = some (λ fd fds. ok (fds ++ fd ∷ []))

-- A listener with an event.
abbrev knocked : Serving quiet_kernel (List ℕ)
knocked = record {
  acceptor = record {
    listening = true;
    acceptfd = 3;
    accept_channel = record {
      pooling = true;
      fd = 3;
      tied = false;
      events = 3;
      revents = 1;
      handling_events = false;
    };
  };
  owner = 7 ∷ [];
  closed = [];
}

handed_on :
    handle_read quiet_kernel (List ℕ) (accepted 9) keep true knocked
    ≡ ok (record knocked { owner = 7 ∷ 9 ∷ [] })
unfolding handle_read accept_one
handed_on = refl
