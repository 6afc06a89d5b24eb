-- ===== src/Server/Ends.antt =====
-- Server: the loops that its constructor makes.
use knet_lib.Common.{ℕ, ◌≡◌, refl, none, some, crash, assertion, suc, Returns-ok}
use knet_lib.Epoll.{Kernel, IsEpoll}
use knet_lib.EventLoop.Lifetime.{construct, IsMade, construct-IsMade, second_loop_refused}
use knet_lib.Server.{make_reactors}

module _ (kernel : Kernel) where
  module _ (epoll : IsEpoll kernel) (unused : kernel.Interest)
      (empty : (fd : ℕ) → kernel.watched unused fd ≡ none) where
    make_reactors_again :
        (made : ℕ → ℕ) (fds : ℕ → ℕ) (i size other : ℕ)
        → make_reactors kernel unused made (λ j. some (fds j)) i (suc size) (some other)
          ≡ crash assertion
    unfolding make_reactors
    make_reactors_again made fds i size other =
        rw (second_loop_refused kernel epoll (fds i) unused (empty (fds i)) (made i) other) refl

    -- On an interest list without registrations, the constructor of a server that makes a loop in
    -- a thread that has one, or two loops in a thread that has none, ends the process at the
    -- assertion of the constructor of EventLoop.
    pub second_reactor_refused :
        (made : ℕ → ℕ) (fds : ℕ → ℕ) (size : ℕ)
        → ((other : ℕ)
            → make_reactors kernel unused made (λ j. some (fds j)) 0 (suc size) (some other)
              ≡ crash assertion)
          × (make_reactors kernel unused made (λ j. some (fds j)) 0 (suc (suc size)) none
              ≡ crash assertion)
    unfolding make_reactors
    second_reactor_refused made fds size = (
      λ other. make_reactors_again made fds 0 size other,
      (let (m, e, h) =
            Returns-ok (IsMade kernel (fds 0) (made 0))
              (construct kernel (some (fds 0)) (made 0) unused none)
              (construct-IsMade kernel epoll (fds 0) unused (empty (fds 0)) (made 0)) in
          rw (e, h.owner, make_reactors_again made fds 1 size (made 0)) refl),
    )
