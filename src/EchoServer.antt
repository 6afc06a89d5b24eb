-- ===== src/EchoServer.antt =====
-- examples/server.cpp: a server that sends each message back, with "Echo: " before it. The message
-- callback is that of TcpConnection/Reply with this reply.
mod Tests
use knet_lib.Common.{ℕ, List, ◌++◌}
use knet_lib.Text.{codes}

unfoldable pub echo : List ℕ → List ℕ
echo msg = codes "Echo: " ++ msg
