-- ===== src/Connector/Attempts.antt =====
-- Connector: what an attempt comes to.
use knet_lib.Common.{
  ℕ, ◌==◌, ◌≡◌, refl, sym, ap, ◌∙◌, Bool, true, false, false≢true, Option, none, some,
  if◌then◌else◌, Bool-cases, inl, inr, Returns, Returns-bind, Returns-map,
}
use knet_lib.Sys.{einprogress}
use knet_lib.Channel.{Channel, is_reading}
use knet_lib.Channel.Masks.{IsMask, is_urgent}
use knet_lib.Epoll.{Kernel, IsEpoll, enable_write, remove_channel}
use knet_lib.Epoll.Registered.{IsUnlisted, SameBut, remove_channel-Returns}
use knet_lib.Epoll.Changes.{Changed, enable_write-Changed}
use knet_lib.Connector.{
  Report, nothing, reported_error, new_connection, Connector, conclude, handle_write, start,
}

-- What `conclude` reports, on each of its branches.
abbrev pub Concluded : (kernel : Kernel) → ℕ → Connector kernel → Connector kernel × Report → Type 0
Concluded kernel errno c (d, report) =
    (d.channel ≡ c.channel)
    × ((errno == 0) ≡ true
        → c.has_callback ≡ true
        → (d.connected ≡ true) × (report ≡ new_connection c.sockfd))
    × ((errno == 0) ≡ true
        → c.has_callback ≡ false
        → (d.connected ≡ c.connected) × (report ≡ nothing))
    × ((errno == 0) ≡ false
        → (d.connected ≡ c.connected)
          × (report ≡ (if c.has_error_callback then reported_error else nothing)))

conclude_lem :
    (kernel : Kernel) (errno : ℕ) (c : Connector kernel)
    → Concluded kernel errno c (conclude kernel errno c)
unfolding conclude
conclude_lem kernel errno c = elim (Bool-cases (errno == 0)) [
  | inl t ↦ elim (Bool-cases c.has_callback) [
    | inl h ↦
        simp (t, h)
          (
            refl,
            λ p q. (refl, refl),
            λ p q. absurd (false≢true (sym q)),
            λ p. absurd (false≢true (sym p)),
          )
    | inr h ↦
        simp (t, h)
          (
            refl,
            λ p q. absurd (false≢true q),
            λ p q. (refl, refl),
            λ p. absurd (false≢true (sym p)),
          )
  ]
  | inr t ↦
      simp t (refl, λ p q. absurd (false≢true p), λ p q. absurd (false≢true p), λ p. (refl, refl))
]

module _ (kernel : Kernel) (c : Connector kernel) (k : kernel.Interest) where
  open kernel use {watched}

  -- The channel is off the poller after `handleWrite`, and one callback at most is due.
  abbrev pub Attempted : ℕ → (Connector kernel × Report) × kernel.Interest → Type 0
  Attempted so_error ((d, report), k') =
      (d.channel.pooling ≡ false)
      × (watched k' c.channel.fd ≡ none)
      × SameBut kernel c.channel.fd k k'
      × ((so_error == 0) ≡ true
          → c.has_callback ≡ true
          → (d.connected ≡ true) × (report ≡ new_connection c.sockfd))
      × ((so_error == 0) ≡ false
          → (d.connected ≡ c.connected)
            × (report ≡ (if c.has_error_callback then reported_error else nothing)))

module _ (kernel : Kernel) (epoll : IsEpoll kernel) (c : Connector kernel) (k : kernel.Interest)
    (u : IsUnlisted kernel c.channel k) where
  open kernel use {watched}

  pub handle_write-Attempted :
      (so_error : ℕ)
      → c.started ≡ true
      → Returns (Attempted kernel c k so_error) (handle_write kernel so_error true c k)
  unfolding handle_write
  handle_write-Attempted so_error s = simp s (
      Returns-bind
        (λ (ch, k').
          (ch ≡ record c.channel { pooling = false })
          × (watched k' c.channel.fd ≡ none)
          × SameBut kernel c.channel.fd k k')
        (Attempted kernel c k so_error) (remove_channel kernel true c.channel k) _
        (remove_channel-Returns kernel epoll c.channel k u)
        (λ (ch, k') r.
          let h = conclude_lem kernel so_error (record c { started = true; channel = ch }) in
          (ap (λ (x : Channel). x.pooling) (h.0 ∙ r.0), r.1, r.2, h.1, h.3)))

  -- An attempt that is in progress waits for room to write.
  start_waiting :
      (so_error : ℕ)
      → c.started ≡ false
      → IsMask c.channel.events
      → Returns
          (λ ((d, report), k').
            Changed kernel c.channel k
              (is_reading c.channel)
              (is_urgent c.channel)
              true
              (d.channel, k')
            × (d.connected ≡ c.connected)
            × (report ≡ nothing))
          (start kernel (some einprogress) so_error true c k)
  unfolding start
  start_waiting so_error s m = simp s (
      Returns-bind (Changed kernel c.channel k (is_reading c.channel) (is_urgent c.channel) true) _
        (enable_write kernel true c.channel k) _ (enable_write-Changed kernel epoll c.channel k m u)
        (λ (ch, k') r. (r, refl, refl)))

  -- An attempt that is in progress changes the connector in no other way.
  pub start-InProgress :
      (so_error : ℕ)
      → c.started ≡ false
      → IsMask c.channel.events
      → Returns
          (λ ((d, report), k').
            (d ≡ record c { started = true; channel = d.channel })
            × (report ≡ nothing)
            × Changed kernel c.channel k
                (is_reading c.channel)
                (is_urgent c.channel)
                true
                (d.channel, k'))
          (start kernel (some einprogress) so_error true c k)
  unfolding start
  start-InProgress so_error s m = simp s (
      Returns-bind (Changed kernel c.channel k (is_reading c.channel) (is_urgent c.channel) true) _
        (enable_write kernel true c.channel k) _ (enable_write-Changed kernel epoll c.channel k m u)
        (λ (ch, k') r. (refl, refl, r)))

-- connect(2) has begun to connect, and will report by SO_ERROR.
abbrev pub is_pending : Option ℕ → Bool
is_pending none = false
is_pending (some errno) = errno == einprogress

-- `start` where connect(2) answers at once returns with the channel off the poller and other
-- descriptors left alone; by the pending error of the socket, the attempt has failed and the error
-- callback is due, if set, or it has succeeded and the callback for a new connection is due.
pub start-Attempted :
    (kernel : Kernel) (epoll : IsEpoll kernel) (c : Connector kernel) (k : kernel.Interest)
    (result : Option ℕ) (so_error : ℕ)
    → IsUnlisted kernel c.channel k
    → c.started ≡ false
    → is_pending result ≡ false
    → Returns (Attempted kernel c k so_error) (start kernel result so_error true c k)
unfolding start
start-Attempted kernel epoll c k none so_error u s e =
    simp s (handle_write-Attempted kernel epoll (record c { started = true }) k u so_error refl)
start-Attempted kernel epoll c k (some errno) so_error u s e =
    simp (s, e)
      (handle_write-Attempted kernel epoll (record c { started = true }) k u so_error refl)

-- `start` where connect(2) fails at once, with an error other than EINPROGRESS and none pending on
-- the socket, takes the attempt for a success: the connector is connected, and the callback for a
-- new connection is due.
pub start_taken_for_success :
    (kernel : Kernel) (epoll : IsEpoll kernel) (c : Connector kernel) (k : kernel.Interest)
    (errno : ℕ)
    → IsUnlisted kernel c.channel k
    → c.started ≡ false
    → (errno == einprogress) ≡ false
    → c.has_callback ≡ true
    → Returns
        (λ ((d, report), k'). (d.connected ≡ true) × (report ≡ new_connection c.sockfd))
        (start kernel (some errno) 0 true c k)
start_taken_for_success kernel epoll c k errno u s e h =
    Returns-map (Attempted kernel c k 0)
      (λ ((d, report), k'). (d.connected ≡ true) × (report ≡ new_connection c.sockfd))
      (start kernel (some errno) 0 true c k) (start-Attempted kernel epoll c k (some errno) 0 u s e)
      (λ ((d, report), k') a. a.3 refl h)
