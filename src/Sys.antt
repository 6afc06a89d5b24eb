-- ===== src/Sys.antt =====
-- What system calls answer, as the sources read it, and the error numbers that the sources test.
use knet_lib.Common.{ℕ, ◌+◌, ◌≤◌, ◌≡◌, refl, ◌⊎◌, inl, inr, List, [], ◌∷◌, length}

-- read and readv: the bytes that came (none at the end of the stream), or errno.
pub data ReadResult : Type 0 where
  received : List ℕ → ReadResult
  read_failed : ℕ → ReadResult

abbrev pub received_bytes : ReadResult → List ℕ
received_bytes (received bytes) = bytes
received_bytes (read_failed errno) = []

pub ReadResult-cases :
    (r : ReadResult)
    → ((errno : ℕ) × (r ≡ read_failed errno)) ⊎ ((bytes : List ℕ) × (r ≡ received bytes))
ReadResult-cases (received bytes) = inr (bytes, refl)
ReadResult-cases (read_failed errno) = inl (errno, refl)

abbrev pub sum : List ℕ → ℕ
sum [] = 0
sum (n ∷ ns) = n + sum ns

-- readv fills at most the memory that its iovec names.
abbrev pub IsReadv : (List ℕ → ReadResult) → Type 0
IsReadv readv =
    (iov : List ℕ) (bytes : List ℕ) → readv iov ≡ received bytes → length bytes ≤ sum iov

-- write: how many bytes the kernel took, or errno.
pub data WriteResult : Type 0 where
  wrote : ℕ → WriteResult
  write_failed : ℕ → WriteResult

pub WriteResult-cases :
    (r : WriteResult) → ((errno : ℕ) × (r ≡ write_failed errno)) ⊎ ((n : ℕ) × (r ≡ wrote n))
WriteResult-cases (wrote n) = inr (n, refl)
WriteResult-cases (write_failed errno) = inl (errno, refl)

-- write takes no more than it is given.
abbrev pub IsWrite : (List ℕ → WriteResult) → Type 0
IsWrite write = (bytes : List ℕ) (n : ℕ) → write bytes ≡ wrote n → n ≤ length bytes

abbrev pub enoent : ℕ
enoent = 2

abbrev pub eintr : ℕ
eintr = 4

abbrev pub ebadf : ℕ
ebadf = 9

abbrev pub eagain : ℕ
eagain = 11

abbrev pub emfile : ℕ
emfile = 24

abbrev pub epipe : ℕ
epipe = 32

abbrev pub econnaborted : ℕ
econnaborted = 103

abbrev pub econnreset : ℕ
econnreset = 104

abbrev pub einprogress : ℕ
einprogress = 115
