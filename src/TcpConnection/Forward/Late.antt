-- ===== src/TcpConnection/Forward/Late.antt =====
-- TcpConnection: an exchange in another thread that comes after the close.
use knet_lib.Common.{◌≡◌, sym, ap, true, false, ◌>>=◌}
use knet_lib.Channel
use knet_lib.Epoll.{Kernel, remove_channel}
use knet_lib.TcpConnection.{Conn, Handlers, disconnected, disconnecting, shutdown_exchange}
use knet_lib.TcpConnection.Events.{handle_close}
use knet_lib.TcpConnection.Sending.{force_close_in_loop, force_close_exchange, force_close}

module _ (kernel : Kernel) (handlers : Handlers kernel) (c : Conn kernel)
    (closed : c.state ≡ disconnected) (unlisted : c.channel.pooling ≡ false) where
  -- The state that the late exchange leaves.
  abbrev reopened : Conn kernel
  reopened = record c { state = disconnecting }

  as_before : record c { state = disconnected } ≡ c
  as_before = ap (λ s. record c { state = s }) (sym closed)

  closes_again : force_close kernel handlers true reopened ≡ Channel.call handlers.close_callback c
  unfolding force_close force_close_exchange force_close_in_loop handle_close remove_channel
  closes_again = simp unlisted (ap (Channel.call handlers.close_callback) as_before)

  -- If the exchange of `forceClose` or `shutdown` in another thread comes when the loop has closed
  -- the connection since the load, which leaves it disconnected and off the poller, a call of
  -- `forceClose` in the loop's thread after it closes the connection again: the close callback
  -- runs once more.
  pub late_exchange_closes_again :
      ((force_close_exchange kernel handlers false c >>= force_close kernel handlers true)
        ≡ Channel.call handlers.close_callback c)
      × ((shutdown_exchange kernel false c >>= force_close kernel handlers true)
          ≡ Channel.call handlers.close_callback c)
  unfolding force_close_exchange shutdown_exchange
  late_exchange_closes_again = (simp closed closes_again, simp closed closes_again)
