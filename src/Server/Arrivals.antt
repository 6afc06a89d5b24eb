-- ===== src/Server/Arrivals.antt =====
-- Server: a connection that arrives.
use knet_lib.Common.{
  ℕ, ◌%◌, ◌≡◌, ◌≢◌, refl, ap, ◌∙◌, eq→==, ne→==, true, not, [], length, get_elem?, none, some,
  Returns, Returns-bind, arith,
}
use knet_lib.Buffer.{new_buffer, initial_size, contents}
use knet_lib.Buffer.Valid.{IsValid, Holds, new_buffer-Returns}
use knet_lib.Channel.{new_channel, epollin, is_reading, is_writing}
use knet_lib.Channel.Masks.{has-ne-zero}
use knet_lib.Connection
use knet_lib.Connection.{Connection}
use knet_lib.Epoll.{Kernel, IsEpoll, enable_read}
use knet_lib.Epoll.Registered.{Agrees}
use knet_lib.Epoll.Changes.{Changed, enable_read-Changed}
use knet_lib.Server.{Server, new_connection}

module _ (kernel : Kernel) where
  -- A connection that has read nothing yet and waits for input.
  pub record IsFresh (loop fd : ℕ) (c : Connection) (k : kernel.Interest) : Type 0 where
    owner : c.loop ≡ loop
    same_fd : c.chan.fd ≡ fd
    listed : c.chan.pooling ≡ true
    reads : is_reading c.chan ≡ true
    agrees : Agrees kernel c.chan k
    valid : IsValid c.read_buffer
    no_input : contents c.read_buffer ≡ []
    no_output : c.wire ≡ []

  module _ (epoll : IsEpoll kernel) (loop fd : ℕ) where
    connection-IsFresh :
        (k : kernel.Interest)
        → kernel.watched k fd ≡ none
        → Returns
            (λ (c, k'). IsFresh loop fd c k')
            (Connection.new_connection kernel true loop fd k)
    unfolding Connection.new_connection new_channel
    connection-IsFresh k free =
        Returns-bind (Changed kernel (new_channel fd) k true true (is_writing (new_channel fd))) _
          (enable_read kernel true (new_channel fd) k) _
          (enable_read-Changed kernel epoll (new_channel fd) k (omega arith) (λ p. free))
          (λ r h.
            Returns-bind (Holds [] 8) _ (new_buffer initial_size) _
              (new_buffer-Returns initial_size (omega arith))
              (λ b v. record {
                owner = refl;
                same_fd = h.same_fd;
                listed = h.pooling ∙ ap not (has-ne-zero _ epollin h.watches.reads);
                reads = h.watches.reads;
                agrees = h.agrees;
                valid = v.0;
                no_input = v.1;
                no_output = refl;
              }))

    -- A connection that arrives at a server with loops, on a descriptor that its loop has not
    -- registered, is kept under its descriptor with an empty buffer, belongs to the loop at the
    -- remainder, and waits for input there; other connections and the registrations of other loops
    -- are left alone.
    pub new_connection-IsFresh :
        (s : Server kernel)
        → get_elem? s.sub_reactors (fd % length s.sub_reactors) ≡ some loop
        → kernel.watched (s.interests loop) fd ≡ none
        → Returns
            (λ s'.
              ((c : Connection) × (s'.connections fd ≡ some c)
                × IsFresh loop fd c (s'.interests loop))
              × ((fd' : ℕ) → fd' ≢ fd → s'.connections fd' ≡ s.connections fd')
              × ((loop' : ℕ) → loop' ≢ loop → s'.interests loop' ≡ s.interests loop'))
            (new_connection kernel true (some fd) s)
    unfolding new_connection
    new_connection-IsFresh s e free =
        rw (e, new_connection)
          (Returns-bind (λ (c, k). IsFresh loop fd c k) _
            (Connection.new_connection kernel true loop fd (s.interests loop)) _
            (connection-IsFresh (s.interests loop) free)
            (λ r h.
              let here = eq→== fd fd refl in
              let there = eq→== loop loop refl in
              (
                (r.0, rw here refl, rw there h),
                λ fd' n. rw (ne→== fd' fd n) refl,
                λ loop' n. rw (ne→== loop' loop n) refl,
              )))
