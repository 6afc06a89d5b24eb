-- ===== src/TcpServerSingle/Tests.antt =====
-- The theorems of TcpServerSingle at a server with two connections.
use knet_lib.Common.{◌==◌, ◌||◌, ◌≡◌, refl, true, false, [], ◌∷◌, crash, dangling}
use knet_lib.TcpServerSingle.{TcpServerSingle, stop, destroy_server}
use knet_lib.TcpServerSingle.Owned.{IsOwned}
use knet_lib.TcpServerSingle.Stop.{stop_dangling}

abbrev two_connections : TcpServerSingle
two_connections = record { connections = 3 ∷ 4 ∷ []; is_open = λ p. 3 == p || (4 == p || false) }

two_connections-IsOwned : IsOwned two_connections
two_connections-IsOwned p o = o

stop_dangling_example :
    (stop true two_connections ≡ crash dangling)
    × (destroy_server true two_connections ≡ crash dangling)
stop_dangling_example = stop_dangling two_connections refl
