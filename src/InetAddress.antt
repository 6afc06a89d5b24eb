-- ===== src/InetAddress.antt =====
-- include/knetlib/InetAddress.h and src/InetAddress.cpp: the address of a peer, as sockaddr_in holds
-- it. `host` is the byte order of the machine, `pton` and `ntop` are inet_pton and inet_ntop on the
-- 32 bits of sin_addr. An integer of more than one byte is its bit pattern, and a text the list of
-- its characters.
pub mod Text
mod Tests
use knet_lib.Common.{
  ℕ, Bool, List, [], ◌∷◌, ◌++◌, Option, none, some, if◌then◌else◌, Outcome, ok, crash, exit_failure,
}
use knet_lib.Words.{Endian, htobe}
use knet_lib.Logger.Format.{to_string}

-- sockaddr_in, without its padding.
pub record InetAddress : Type 0 where
  pub sin_family : ℕ
  pub sin_port : ℕ
  pub sin_addr : ℕ

abbrev pub af_inet : ℕ
af_inet = 2

abbrev pub inaddr_loopback : ℕ
inaddr_loopback = 0x7f000001

abbrev pub inaddr_any : ℕ
inaddr_any = 0

-- The constructor without arguments, for accept.
abbrev pub empty_address : InetAddress
empty_address = record { sin_family = af_inet; sin_port = 0; sin_addr = 0 }

-- The constructor from a port of this machine.
unfoldable pub from_port : Endian → ℕ → Bool → InetAddress
from_port host port loopback = record {
  sin_family = af_inet;
  sin_addr = htobe host 4 (if loopback then inaddr_loopback else inaddr_any);
  sin_port = htobe host 2 port;
}

-- The constructor from a text in dotted form and a port.
unfoldable pub from_text : Endian → (List ℕ → Option ℕ) → List ℕ → ℕ → Outcome InetAddress
from_text host pton ip port = elim (pton ip) [
  | none ↦ crash exit_failure
  | some address ↦
      ok (record { sin_family = af_inet; sin_addr = address; sin_port = htobe host 2 port })
]

-- inet_ntop fails by a null pointer, and the text is empty then.
unfoldable pub to_ip : (ℕ → Option (List ℕ)) → InetAddress → List ℕ
to_ip ntop a = elim (ntop a.sin_addr) [ none ↦ [] | some text ↦ text ]

unfoldable pub to_port : Endian → InetAddress → ℕ
to_port host a = htobe host 2 a.sin_port

abbrev colon : ℕ
colon = 58

unfoldable pub to_ip_port : Endian → (ℕ → Option (List ℕ)) → InetAddress → List ℕ
unfolding to_ip to_port
to_ip_port host ntop a = (to_ip ntop a ++ colon ∷ []) ++ to_string (to_port host a)
