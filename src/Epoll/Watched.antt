-- ===== src/Epoll/Watched.antt =====
-- Epoll: while its descriptor is open, a channel is watched for just the events that it asks for.
use knet_lib.Common.{
  ℕ, ◌==◌, ◌≡◌, ◌≢◌, ◌⊎◌, inl, inr, refl, ap, ◌∙◌, true, false, not, none, some, if◌then◌else◌,
  Returns, Option-cases, Bool-cases, ==_iff,
}
use knet_lib.Sys.{enoent, ebadf}
use knet_lib.Channel.{Channel, is_none_events}
use knet_lib.Epoll.{Kernel, IsEpoll, Ctl, add, mod_, del, control, update_channel}
use knet_lib.Epoll.Registered.{IsUnlisted, SameBut, pooling_eq}

module _ (kernel : Kernel) where
  open kernel use {Interest, watched, ctl}

  -- epoll_ctl(2) for an open descriptor: no call answers EBADF, and a change of one that is on the
  -- list does not answer ENOENT.
  pub record IsOpen (fd : ℕ) : Type 0 where
    pub not_closed : (op : Ctl) (events : ℕ) (k : Interest) → (ctl op fd events k).0 ≢ some ebadf
    pub found :
        (events : ℕ) (k : Interest) → watched k fd ≢ none → (ctl mod_ fd events k).0 ≢ some enoent

  -- A channel that is pooling is on the list.
  abbrev pub IsListed : Channel → Interest → Type 0
  IsListed c k = c.pooling ≡ true → watched k c.fd ≢ none

  -- The channel after an update, and what the kernel watches its descriptor for.
  abbrev pub IsWatched : Channel → Interest → Channel × Interest → Type 0
  IsWatched c k (c', k') =
      (c' ≡ record c { pooling = not (is_none_events c) })
      × (watched k' c.fd ≡ (if is_none_events c then none else some c.events))
      × SameBut kernel c.fd k k'

  module _ (epoll : IsEpoll kernel) (c : Channel) (k : Interest) (opened : IsOpen c.fd) where
    open epoll use {add_free, mod_any, del_any, add_sets, mod_sets, del_clears, missing, others}

    add_works : watched k c.fd ≡ none → (ctl add c.fd c.events k).0 ≡ none
    add_works free = elim (Option-cases (ctl add c.fd c.events k).0) [
      | inl e ↦ e
      | inr (errno, e) ↦ absurd (
          opened.not_closed add c.events k
            (e ∙ ap some ((==_iff errno ebadf).0 (rw e at (add_free c.fd c.events k free)))))
    ]

    mod_works : watched k c.fd ≢ none → (ctl mod_ c.fd c.events k).0 ≡ none
    mod_works on_list = elim (Option-cases (ctl mod_ c.fd c.events k).0) [
      | inl e ↦ e
      | inr (errno, e) ↦ elim (Bool-cases (errno == enoent)) [
        | inl t ↦ absurd (opened.found c.events k on_list (e ∙ ap some ((==_iff errno enoent).0 t)))
        | inr f ↦ absurd (
            opened.not_closed mod_ c.events k (
              e ∙ ap some ((==_iff errno ebadf).0 (simp f at (rw e at (mod_any c.fd c.events k))))))
      ]
    ]

    del_works : watched (ctl del c.fd c.events k).1 c.fd ≡ none
    del_works = elim (Option-cases (ctl del c.fd c.events k).0) [
      | inl e ↦ del_clears c.fd c.events k e
      | inr (errno, e) ↦ missing del c.fd c.events k errno e (rw e at (del_any c.fd c.events k))
    ]

    -- `updateChannel` in the loop's thread, of a channel that is registered or asks for some
    -- event, whose `pooling` says whether the kernel watches its descriptor, returns while that
    -- descriptor is open: `pooling` then says whether the channel asks for any event, the kernel
    -- watches the descriptor for just those events, or not at all if there are none, and other
    -- descriptors are left alone.
    pub update_channel-IsWatched :
        IsUnlisted kernel c k
        → IsListed c k
        → (c.pooling ≡ true) ⊎ (is_none_events c ≡ false)
        → Returns (IsWatched c k) (update_channel kernel true c k)
    unfolding update_channel control
    update_channel-IsWatched free on_list h = elim (Bool-cases c.pooling) [
      | inr p ↦ elim (Bool-cases (is_none_events c)) [
        | inl idle ↦ absurd (neither p idle h)
        | inr busy ↦
            let e = add_works (free p) in
            simp (p, busy, e) (refl, add_sets c.fd c.events k e, others add c.fd c.events k)
      ]
      | inl p ↦ elim (Bool-cases (is_none_events c)) [
        | inl idle ↦
            simp (p, idle, del_any c.fd c.events k) (refl, del_works, others del c.fd c.events k)
        | inr busy ↦
            let e = mod_works (on_list p) in
            simp (p, busy, e)
              (pooling_eq c p, mod_sets c.fd c.events k e, others mod_ c.fd c.events k)
      ]
    ]
      where
        neither :
            c.pooling ≡ false
            → is_none_events c ≡ true
            → ¬ ((c.pooling ≡ true) ⊎ (is_none_events c ≡ false))
        neither p idle (inl t) = cc
        neither p idle (inr f) = cc
