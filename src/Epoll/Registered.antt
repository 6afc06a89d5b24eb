-- ===== src/Epoll/Registered.antt =====
-- Epoll: `pooling` and the mask of a channel agree with the kernel's interest list.
use knet_lib.Common.{
  ℕ, ◌≡◌, ◌≢◌, ◌⊎◌, inl, inr, refl, sym, ap, ◌∙◌, Bool, true, false, not, none, some, crash,
  assertion, Returns, Returns-bind, Option-cases, Bool-cases,
}
use knet_lib.Channel.{Channel, is_none_events}
use knet_lib.Epoll.{
  Kernel, IsEpoll, Ctl, add, mod_, del, accepted, control, update_channel, remove_channel,
}

pub pooling_eq :
    (c : Channel) {a b : Bool} → a ≡ b → record c { pooling = a } ≡ record c { pooling = b }
pooling_eq c e = ap (λ b. record c { pooling = b }) e

module _ (kernel : Kernel) where
  open kernel use {Interest, watched, ctl}

  -- A channel that is not pooling is on no list.
  abbrev pub IsUnlisted : Channel → Interest → Type 0
  IsUnlisted c k = c.pooling ≡ false → watched k c.fd ≡ none

  -- The kernel watches for the events that the channel asks for or, as when the descriptor was
  -- closed, does not watch it at all.
  abbrev pub Agrees : Channel → Interest → Type 0
  Agrees c k = (watched k c.fd ≡ none) ⊎ ((c.pooling ≡ true) × (watched k c.fd ≡ some c.events))

  -- The list is as before but at one descriptor.
  abbrev pub SameBut : ℕ → Interest → Interest → Type 0
  SameBut fd k k' = (fd' : ℕ) → fd' ≢ fd → watched k' fd' ≡ watched k fd'

  -- What a tolerated or successful call of epoll_ctl leaves.
  abbrev Settled : Ctl → Channel → Interest → Type 0
  Settled del c k = watched k c.fd ≡ none
  Settled _ c k = (watched k c.fd ≡ none) ⊎ (watched k c.fd ≡ some c.events)

  -- The channel after an update.
  abbrev pub Updated : Channel → Interest → Channel × Interest → Type 0
  Updated c k (c', k') =
      (c' ≡ record c { pooling = not (is_none_events c) }) × Agrees c' k' × SameBut c.fd k k'

  module _ (epoll : IsEpoll kernel) where
    open epoll use {add_free, mod_any, del_any, add_sets, mod_sets, del_clears, missing, others}

    settled :
        (op : Ctl) (c : Channel) (k : Interest)
        → accepted op (ctl op c.fd c.events k).0 ≡ true
        → Settled op c (ctl op c.fd c.events k).1
    settled add c k h = elim (Option-cases (ctl add c.fd c.events k).0) [
      | inl e ↦ inr (add_sets c.fd c.events k e)
      | inr (errno, e) ↦ inl (missing add c.fd c.events k errno e (rw e at h))
    ]
    settled mod_ c k h = elim (Option-cases (ctl mod_ c.fd c.events k).0) [
      | inl e ↦ inr (mod_sets c.fd c.events k e)
      | inr (errno, e) ↦ inl (missing mod_ c.fd c.events k errno e (rw e at h))
    ]
    settled del c k h = elim (Option-cases (ctl del c.fd c.events k).0) [
      | inl e ↦ del_clears c.fd c.events k e
      | inr (errno, e) ↦ missing del c.fd c.events k errno e (rw e at h)
    ]

    control-Returns :
        (op : Ctl) (c : Channel) (k : Interest)
        → accepted op (ctl op c.fd c.events k).0 ≡ true
        → Returns (λ k'. Settled op c k' × SameBut c.fd k k') (control kernel op c k)
    unfolding control
    control-Returns op c k h = rw h (settled op c k h, others op c.fd c.events k)

    Settled-listed :
        (op : Ctl) (c : Channel) (k : Interest) → c.pooling ≡ true → Settled op c k → Agrees c k
    Settled-listed add c k p (inl u) = inl u
    Settled-listed add c k p (inr w) = inr (p, w)
    Settled-listed mod_ c k p (inl u) = inl u
    Settled-listed mod_ c k p (inr w) = inr (p, w)
    Settled-listed del c k p w = inl w

    update_add :
        (c : Channel) (k : Interest)
        → c.pooling ≡ false
        → is_none_events c ≡ false
        → IsUnlisted c k
        → Returns (Updated c k) (update_channel kernel true c k)
    unfolding update_channel
    update_add c k p e u =
        let c' : Channel = record c { pooling = true } in
        simp (e, p)
          (Returns-bind (λ k'. Settled add c' k' × SameBut c.fd k k') (Updated c k)
            (control kernel add c' k) _ (control-Returns add c' k (add_free c.fd c.events k (u p)))
            (λ k' r. (pooling_eq c (sym (ap not e)), Settled-listed add c' k' refl r.0, r.1)))

    update_mod :
        (c : Channel) (k : Interest)
        → c.pooling ≡ true
        → is_none_events c ≡ false
        → Returns (Updated c k) (update_channel kernel true c k)
    unfolding update_channel
    update_mod c k p e =
        simp (e, p)
          (Returns-bind (λ k'. Settled mod_ c k' × SameBut c.fd k k') (Updated c k)
            (control kernel mod_ c k) _ (control-Returns mod_ c k (mod_any c.fd c.events k))
            (λ k' r. (pooling_eq c (p ∙ sym (ap not e)), Settled-listed mod_ c k' p r.0, r.1)))

    update_del :
        (c : Channel) (k : Interest)
        → c.pooling ≡ true
        → is_none_events c ≡ true
        → Returns (Updated c k) (update_channel kernel true c k)
    unfolding update_channel
    update_del c k p e =
        let c' : Channel = record c { pooling = false } in
        simp (e, p)
          (Returns-bind (λ k'. Settled del c' k' × SameBut c.fd k k') (Updated c k)
            (control kernel del c' k) _ (control-Returns del c' k (del_any c.fd c.events k))
            (λ k' r. (pooling_eq c (sym (ap not e)), inl r.0, r.1)))

    -- After `updateChannel` of a channel that is registered or asks for some event, `pooling` says
    -- whether it asks for any event, the kernel watches the descriptor for just those events or not
    -- at all, and other descriptors are left alone.
    pub update_channel-Returns :
        (c : Channel) (k : Interest)
        → IsUnlisted c k
        → (c.pooling ≡ true) ⊎ (is_none_events c ≡ false)
        → Returns (Updated c k) (update_channel kernel true c k)
    update_channel-Returns c k u h = elim (Bool-cases c.pooling) [
      | inr free ↦ update_add c k free (or_else free h) u
      | inl listed ↦ elim (Bool-cases (is_none_events c)) [
        | inl idle ↦ update_del c k listed idle
        | inr busy ↦ update_mod c k listed busy
      ]
    ]
      where
        or_else :
            c.pooling ≡ false
            → (c.pooling ≡ true) ⊎ (is_none_events c ≡ false)
            → is_none_events c ≡ false
        or_else e (inl t) = cc
        or_else e (inr f) = f

    -- After `removeChannel` the descriptor is on no list, whether or not it was on one, and other
    -- descriptors are left alone.
    pub remove_channel-Returns :
        (c : Channel) (k : Interest)
        → IsUnlisted c k
        → Returns
            (λ (c', k').
              (c' ≡ record c { pooling = false }) × (watched k' c.fd ≡ none) × SameBut c.fd k k')
            (remove_channel kernel true c k)
    unfolding remove_channel
    remove_channel-Returns c k u = elim (Bool-cases c.pooling) [
      | inr free ↦ simp free (pooling_eq c free, u free, λ fd' ne. refl)
      | inl listed ↦ simp listed (
          Returns-bind (λ k'. Settled del c k' × SameBut c.fd k k') _ (control kernel del c k) _
            (control-Returns del c k (del_any c.fd c.events k)) (λ k' r. (refl, r.0, r.1)))
    ]

  -- `updateChannel` of a channel that is not registered and asks for nothing stops at the
  -- assertion.
  pub update_channel_idle :
      (c : Channel) (k : Interest)
      → c.pooling ≡ false
      → is_none_events c ≡ true
      → update_channel kernel true c k ≡ crash assertion
  unfolding update_channel
  update_channel_idle c k p e = simp (e, p) refl
