-- ===== src/Socket.antt =====
-- include/knetlib/Socket.h, src/Socket.cpp and src/utils.cpp: a socket whose calls end the process on
-- an error. The descriptor `none` is -1; what the system calls answer are arguments.
use Prim.Native.Nat.{bit_or}
use knet_lib.Common.{
  ℕ, ◌==◌, Bool, Option, none, some, if◌then◌else◌, Outcome, ok, crash, exit_failure, ◌>>◌,
}
use knet_lib.Sys.{eagain}
use knet_lib.InetAddress.{InetAddress}

abbrev pub errif : Bool → Outcome (Unit {0})
errif condition = if condition then crash exit_failure else ok tt

abbrev is_missing : Option ℕ → Bool
is_missing none = Bool.true
is_missing (some fd) = Bool.false

pub record Socket : Type 0 where
  pub fd : Option ℕ

-- The constructors: the descriptor is what socket(2) gives, or the argument.
unfoldable pub new_socket : Option ℕ → Outcome Socket
new_socket fd = do errif (is_missing fd); ok (record { fd = fd })

-- The destructor: the descriptor that it closes.
unfoldable pub destroy_socket : Socket → Option ℕ
destroy_socket s = s.fd

unfoldable pub bind : Bool → Socket → Outcome Socket
bind fails s = do errif fails; ok s

unfoldable pub listen : Bool → Socket → Outcome Socket
listen fails s = do errif fails; ok s

unfoldable pub connect : Bool → Socket → Outcome Socket
connect fails s = do errif fails; ok s

abbrev o_nonblock : ℕ
o_nonblock = 0x800

-- The flags that are set, from those that the descriptor has.
unfoldable pub set_nonblocking : ℕ → ℕ
set_nonblocking flags = bit_or flags o_nonblock

-- accept: a descriptor with the address of its peer, or errno.
pub data Answer : Type 0 where
  arrived : ℕ → InetAddress → Answer
  failed : ℕ → Answer

-- The descriptor, or -1, and the caller's address; EWOULDBLOCK is the same number as EAGAIN.
unfoldable pub accept : Answer → InetAddress → Outcome (Option ℕ × InetAddress)
accept (arrived fd peer) address = ok (some fd, peer)
accept (failed errno) address = if errno == eagain then ok (none, address) else crash exit_failure
