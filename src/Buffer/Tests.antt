-- ===== src/Buffer/Tests.antt =====
-- Runs of Buffer on a small buffer, and the theorems of Buffer at concrete inputs.
use knet_lib.Common.{
  ℕ, ◌≤◌, ◌≡◌, refl, ap, max, ◌++◌, List, [], ◌∷◌, arith, length, take, length-take, none, some,
  ◌>>=◌, Returns,
}
use knet_lib.Words.{little, big}
use knet_lib.Sys.{ReadResult, received, received_bytes, sum, IsReadv}
use knet_lib.Buffer.{Buffer, writable_bytes, contents, prepend_int, read_int}
use knet_lib.Buffer.Valid.{IsValid}
use knet_lib.Buffer.Fd.{iovec, read_fd, read_fd-Returns}
use knet_lib.Buffer.Session.{Call, puts, takes, takes_all, run, queue_run, Simulates, run_refines}
use knet_lib.Buffer.Integers.{read_int-prepend_int}
use knet_lib.Buffer.Search.{first_index, find_crlf, IsFirst, IsCrlfAt, find_crlf-IsFirst}

-- "\r\n" after one byte was read, with two bytes of room.
abbrev crlf : Buffer
crlf = record {
  buffer = 0 ∷ 0 ∷ 0 ∷ 0 ∷ 0 ∷ 0 ∷ 0 ∷ 0 ∷ 65 ∷ 13 ∷ 10 ∷ 0 ∷ 0 ∷ [];
  reader_index = 9;
  writer_index = 11;
}

crlf-IsValid : IsValid crlf
crlf-IsValid = record {
  front = omega arith;
  ordered = omega arith;
  inside = omega arith;
  small = omega arith;
}

-- Three bytes: two fit, and the front makes room for the third.
abbrev script : List Call
script = puts (1 ∷ 2 ∷ 3 ∷ []) ∷ takes 4 ∷ puts (4 ∷ []) ∷ takes_all ∷ takes 1 ∷ []

queue_run-script : queue_run script (13 ∷ 10 ∷ []) ≡ none
unfolding queue_run
queue_run-script = refl

run_refines_example : Simulates (queue_run script (contents crlf)) (run script crlf)
run_refines_example = run_refines script {b = crlf} crlf-IsValid (omega arith)

-- A socket with two bytes to read.
abbrev two_bytes : List ℕ → ReadResult
two_bytes iov = received (take (sum iov) (5 ∷ 6 ∷ []))

two_bytes-IsReadv : IsReadv two_bytes
two_bytes-IsReadv iov bytes e =
    omega (arith, ap (λ r. length (received_bytes r)) e, length-take {A = ℕ} (sum iov) (5 ∷ 6 ∷ []))

read_fd-Returns_example :
    Returns
      (λ (r, b').
        (r ≡ two_bytes (iovec crlf))
        × IsValid b'
        × (contents b' ≡ contents crlf ++ received_bytes r)
        × (length (received_bytes r) ≤ max (writable_bytes crlf) 131071))
      (read_fd two_bytes crlf)
read_fd-Returns_example =
    read_fd-Returns {b = crlf} two_bytes two_bytes-IsReadv crlf-IsValid (omega arith)

read_int-prepend_int_example :
    Returns
      (λ (y, b'). (y ≡ 258) × IsValid b' × (contents b' ≡ contents crlf))
      (prepend_int little 4 258 crlf >>= read_int big 4)
read_int-prepend_int_example =
    read_int-prepend_int {b = crlf} little big 4 258 crlf-IsValid (omega arith) (omega arith)

find_crlf-crlf : find_crlf crlf ≡ some 9
unfolding find_crlf first_index
find_crlf-crlf = refl

find_crlf-IsFirst_example : IsFirst (IsCrlfAt (contents crlf)) 9 (find_crlf crlf)
find_crlf-IsFirst_example = find_crlf-IsFirst crlf crlf-IsValid
