-- ===== src/InetAddress/Text.antt =====
-- InetAddress: an address in memory, and its text.
use knet_lib.Common.{
  ℕ, zero, suc, ◌+◌, ◌*◌, ◌-◌, ◌/◌, ◌%◌, ◌<◌, ◌≡◌, refl, arith, ◌==◌, ==_iff, Bool-cases, inl, inr,
  List, [], ◌∷◌, ◌++◌, Option, some, Returns,
}
use knet_lib.Words.{
  Endian, little, big, htobe, store, load, be_bytes, int_bound, store-htobe, htobe-load,
}
use knet_lib.Logger.Format.{digits, to_string}
use knet_lib.InetAddress.{InetAddress, from_text, to_ip, to_port, to_ip_port}

-- Reading a decimal text, with what stands before it.
abbrev pub read_decimal : ℕ → List ℕ → ℕ
read_decimal value [] = value
read_decimal value (c ∷ cs) = read_decimal (10 * value + (c - 48)) cs

read_decimal-append :
    (v c : ℕ) (xs : List ℕ) → read_decimal v (xs ++ c ∷ []) ≡ 10 * read_decimal v xs + (c - 48)
read_decimal-append v c [] = refl
read_decimal-append v c (x ∷ xs) = read_decimal-append (10 * v + (x - 48)) c xs

-- The first number that does not fit that many digits.
abbrev pub decimal_bound : ℕ → ℕ
decimal_bound zero = 1
decimal_bound (suc n) = 10 * decimal_bound n

pub read_decimal-digits : (fuel n : ℕ) → n < decimal_bound fuel → read_decimal 0 (digits fuel n) ≡ n
unfolding digits
read_decimal-digits zero n h = omega arith
read_decimal-digits (suc fuel) n h = elim (Bool-cases (n / 10 == 0)) [
  | inl e ↦ let z : n / 10 ≡ 0 = (==_iff (n / 10) 0).0 e in rw e (omega (arith, z))
  | inr e ↦
      let front : read_decimal 0 (digits fuel (n / 10)) ≡ n / 10 =
        read_decimal-digits fuel (n / 10) (omega (arith, h)) in
      rw (e, read_decimal-append 0 (48 + n % 10) (digits fuel (n / 10)), front) (omega arith)
]

-- `std::to_string` of a number below 10 ^ 10 reads back as the number.
pub read_decimal-to_string : (n : ℕ) → n < decimal_bound 10 → read_decimal 0 (to_string n) ≡ n
unfolding to_string
read_decimal-to_string n h = read_decimal-digits 10 n h

-- Swapping twice.
htobe_twice : (host : Endian) (n x : ℕ) → x < int_bound n → htobe host n (htobe host n x) ≡ x
unfolding htobe load
htobe_twice little n x h = htobe-load little n x h
htobe_twice big n x h = refl

-- The address that is made of a text and a port.
pub record Holds (host : Endian) (ntop : ℕ → Option (List ℕ)) (ip : List ℕ) (port : ℕ)
    (a : InetAddress) : Type 0 where
  -- The port in memory, highest byte first.
  network_order : store host 2 a.sin_port ≡ be_bytes 2 port
  same_port : to_port host a ≡ port
  same_text : to_ip_port host ntop a ≡ (ip ++ 58 ∷ []) ++ to_string port
  reads_back : read_decimal 0 (to_string (to_port host a)) ≡ port

-- An address that is made of a text in dotted form and a port holds the port highest byte first in
-- memory on a host of any byte order, gives the port back, and prints as the text, a colon and the
-- digits of the port, which read back as the port, if inet_pton knows the text and inet_ntop
-- prints it the same.
pub from_text-Holds :
    (host : Endian) (pton : List ℕ → Option ℕ) (ntop : ℕ → Option (List ℕ)) (ip : List ℕ)
    (port address : ℕ)
    → pton ip ≡ some address
    → ntop address ≡ some ip
    → port < 65536
    → Returns (Holds host ntop ip port) (from_text host pton ip port)
unfolding from_text to_port to_ip_port to_ip
from_text-Holds host pton ntop ip port address e f h =
    let again : htobe host 2 (htobe host 2 port) ≡ port =
      htobe_twice host 2 port (omega (arith, h)) in
    rw (e, Returns)
      (record {
        network_order = store-htobe host 2 port;
        same_port = again;
        same_text = rw (f, again, to_ip_port, to_ip) refl;
        reads_back = rw again (read_decimal-to_string port (omega (arith, h)));
      })
