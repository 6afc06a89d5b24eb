-- ===== src/TcpServer/Lifetime.antt =====
-- TcpServer: how long a connection lives.
use knet_lib.Common.{
  ℕ, zero, suc, refl, ◌+◌, ◌==◌, ◌<◌, ◌≡◌, ap, ◌∙◌, true, false, none, eq→==, Returns, Returns-bind,
  Returns-map, not, arith,
}
use knet_lib.Buffer.{Buffer}
use knet_lib.Channel.{new_channel, tie, is_writing, epollin}
use knet_lib.Channel.Masks.{has-ne-zero}
use knet_lib.Epoll.{Kernel, IsEpoll, enable_read}
use knet_lib.Epoll.Changes.{Changed, enable_read-Changed}
use knet_lib.TcpConnection.{Conn, connected, new_conn, connect_established, on_channel}
use knet_lib.TcpConnection.Sound.{AtChannel, on_channel-Returns}
use knet_lib.TcpServer.{
  Pointers, made_shared, shared_again, released, tie_pointer, tied_pointers, kept_by, held, closed,
  establish,
}

-- A new connection, established.
abbrev pub Established : (kernel : Kernel) → ℕ → Conn kernel → Type 0
Established kernel fd c = (c.channel.fd ≡ fd) × (c.state ≡ connected) × (c.channel.pooling ≡ true)

module _ (kernel : Kernel) (epoll : IsEpoll kernel) (fd : ℕ) (input output : Buffer)
    (k : kernel.Interest) (free : kernel.watched k fd ≡ none) where
  -- The connection when its channel is enabled.
  abbrev opening : Conn kernel
  opening = record (new_conn kernel fd input output k) {
    state = connected;
    channel = tie (new_channel fd);
  }

  connect_established-Established :
      Returns
        (Established kernel fd)
        (connect_established kernel true (new_conn kernel fd input output k))
  unfolding connect_established new_conn new_channel tie
  connect_established-Established =
      Returns-map
        (AtChannel kernel (Changed kernel opening.channel k true true (is_writing opening.channel))
          opening)
        (Established kernel fd) (on_channel kernel (enable_read kernel) true opening)
        (on_channel-Returns kernel _ (enable_read kernel) opening
          (enable_read-Changed kernel epoll opening.channel k (omega arith) (λ p. free)))
        (λ d ((ch, k'), e, r). (
          ap (λ (x : Conn kernel). x.channel.fd) e ∙ r.same_fd,
          ap (λ (x : Conn kernel). x.state) e,
          ap (λ (x : Conn kernel). x.channel.pooling) e
              ∙ r.pooling
              ∙ ap not (has-ne-zero _ epollin r.watches.reads),
        ))

  shared-kept_by : (n : ℕ) (p : Pointers) → (kept_by n p).shared ≡ n + p.shared
  unfolding kept_by
  shared-kept_by zero p = omega arith
  shared-kept_by (suc n) p = omega (arith, shared-kept_by n (shared_again p))

  -- The pointers that are left at the end of the task.
  left : ℕ → Pointers
  left n = released (kept_by n (tied_pointers made_shared))

  shared-left : (n : ℕ) → (left n).shared ≡ n
  unfolding left tied_pointers tie_pointer
  shared-left n = omega (arith, shared-kept_by n (tied_pointers made_shared))

  -- A connection that a server establishes, and of which the connection callback keeps no shared
  -- pointer, is gone at the end of the task that establishes it, with its descriptor closed, where
  -- the descriptor was not registered: the pointer that `Channel::tie` keeps is weak.
  pub establish_dropped :
      (keeps : Conn kernel → ℕ)
      → ((c : Conn kernel) → keeps c ≡ 0)
      → Returns (λ life. life ≡ closed fd) (establish kernel keeps fd input output k)
  unfolding establish left
  establish_dropped keeps none_kept =
      Returns-bind (Established kernel fd) _
        (connect_established kernel true (new_conn kernel fd input output k)) _
        connect_established-Established
        (λ c h.
          let last : ((left (keeps c)).shared == 0) ≡ true =
            eq→== _ _ (shared-left (keeps c) ∙ none_kept c) in
          simp last (ap closed h.0))

  -- A connection that a server establishes on a descriptor that was not registered, and that the
  -- connection callback keeps, is connected, registered with the poller, and held by just the
  -- pointers that the callback keeps.
  pub establish_alive :
      (keeps : Conn kernel → ℕ)
      → ((c : Conn kernel) → 0 < keeps c)
      → Returns
          (λ life.
            (c : Conn kernel) × (p : Pointers) × (life ≡ held p c)
            × (p.shared ≡ keeps c)
            × Established kernel fd c)
          (establish kernel keeps fd input output k)
  unfolding establish left
  establish_alive keeps some_kept =
      Returns-bind (Established kernel fd) _
        (connect_established kernel true (new_conn kernel fd input output k)) _
        connect_established-Established
        (λ c h.
          let alive : ((left (keeps c)).shared == 0) ≡ false =
            ground (arith, some_kept c, shared-left (keeps c)) in
          simp alive (c, left (keeps c), refl, shared-left (keeps c), h))
