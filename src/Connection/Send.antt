-- ===== src/Connection/Send.antt =====
-- Connection: the loop of `send`.
use knet_lib.Common.{
  ℕ, zero, suc, ◌+◌, ◌-◌, ◌≤◌, ◌<◌, ◌==◌, ◌≡◌, refl, sym, ap, ◌∙◌, false, List, [], ◌∷◌, ◌++◌,
  length, take, append_assoc, append-nil, arith, Option, some, inl, inr, Bool-cases, take_all, ◌^◌,
}
use knet_lib.Memory.{slice, length-slice, take-slice}
use knet_lib.Words.{sub_size}
use knet_lib.Sys.{WriteResult, wrote, write_failed, WriteResult-cases}
use knet_lib.Buffer.{contents}
use knet_lib.Connection.{Connection, send_loop, send}

-- write(2) on a socket: of bytes that are not none it takes at least one, and no more than it is
-- given.
abbrev pub IsSocketWrite : (List ℕ → WriteResult) → Type 0
IsSocketWrite write =
    (bytes : List ℕ) (n : ℕ)
    → 0 < length bytes
    → write bytes ≡ wrote n
    → (0 < n) × (n ≤ length bytes)

abbrev pub NeverFails : (List ℕ → WriteResult) → Type 0
NeverFails write = (bytes : List ℕ) (errno : ℕ) → ¬ (write bytes ≡ write_failed errno)

-- The loop with the first `m` bytes sent ends, with some prefix sent.
abbrev pub Ends : (ℕ → List ℕ → WriteResult) → List ℕ → List ℕ → Option (List ℕ) → Type 0
Ends write bytes wire o =
    (k : ℕ) × (k ≤ length bytes)
    × (o ≡ some (wire ++ take k bytes))
    × (((i : ℕ) → NeverFails (write i)) → k ≡ length bytes)

take_next :
    (bytes : List ℕ) (m n k : ℕ) → k ≡ m + n → take m bytes ++ slice bytes m n ≡ take k bytes
take_next bytes zero n k e = ap (λ k. take k bytes) (omega arith)
take_next [] (suc m) zero k e = sym (take_all k [] (omega arith))
take_next [] (suc m) (suc n) k e = sym (take_all k [] (omega arith))
take_next (x ∷ xs) (suc m) n zero e = absurd (omega arith)
take_next (x ∷ xs) (suc m) n (suc k) e = ap (◌∷◌ x) (take_next xs m n k (omega arith))

-- The next `n` of the bytes that are left.
sent_next :
    (bytes wire : List ℕ) (m left n at_ : ℕ)
    → n ≤ left
    → at_ ≡ m
    → wire ++ take m bytes ++ take n (slice bytes at_ left) ≡ wire ++ take (m + n) bytes
sent_next bytes wire m left n at_ h e =
    rw (e, take-slice bytes m left n h)
      (append_assoc wire (take m bytes) (slice bytes m n)
        ∙ ap (λ bs. wire ++ bs) (take_next bytes m n (m + n) refl))

some_left : (left : ℕ) → 0 < left → (left == 0) ≡ false
some_left left h = ground arith

send_loop_failed :
    (fuel : ℕ) (write : ℕ → List ℕ → WriteResult) (bytes wire : List ℕ) (left errno : ℕ)
    → 0 < left
    → write 0 (slice bytes (sub_size (length bytes) left) left) ≡ write_failed errno
    → send_loop (suc fuel) write bytes left wire ≡ some wire
unfolding send_loop
send_loop_failed fuel write bytes wire left errno h e = rw (some_left left h) (rw e refl)

send_loop_wrote :
    (fuel : ℕ) (write : ℕ → List ℕ → WriteResult) (bytes wire : List ℕ) (left n : ℕ)
    → 0 < left
    → write 0 (slice bytes (sub_size (length bytes) left) left) ≡ wrote n
    → send_loop (suc fuel) write bytes left wire
      ≡ send_loop fuel
          (λ i. write (suc i))
          bytes
          (sub_size left n)
          (wire ++ take n (slice bytes (sub_size (length bytes) left) left))
unfolding send_loop
send_loop_wrote fuel write bytes wire left n h e = rw (some_left left h) (rw e refl)

send_loop_done :
    (fuel : ℕ) (write : ℕ → List ℕ → WriteResult) (bytes wire : List ℕ)
    → send_loop (suc fuel) write bytes 0 wire ≡ some wire
unfolding send_loop
send_loop_done fuel write bytes wire = refl

send_loop-Ends :
    (fuel : ℕ) (write : ℕ → List ℕ → WriteResult) (bytes wire : List ℕ) (m left : ℕ)
    → ((i : ℕ) → IsSocketWrite (write i))
    → length bytes < 2 ^ 64
    → m + left ≡ length bytes
    → left < fuel
    → Ends write bytes wire (send_loop fuel write bytes left (wire ++ take m bytes))
send_loop-Ends zero write bytes wire m left s h e f = absurd (omega arith)
send_loop-Ends (suc fuel) write bytes wire m zero s h e f =
    (m, omega arith, send_loop_done fuel write bytes (wire ++ take m bytes), λ g. omega arith)
send_loop-Ends (suc fuel) write bytes wire m (suc left) s h e f =
    let rest = slice bytes (sub_size (length bytes) (suc left)) (suc left) in
    let here : sub_size (length bytes) (suc left) ≡ m = omega arith in
    let size : length rest ≡ suc left =
      length-slice bytes (sub_size (length bytes) (suc left)) (suc left) (omega (arith, here)) in
    elim (WriteResult-cases (write 0 rest)) [
      | inl (errno, w) ↦ (
        m,
        omega arith,
        send_loop_failed fuel write bytes (wire ++ take m bytes) (suc left) errno (omega arith) w,
        λ g. absurd (g 0 rest errno w),
      )
      | inr (n, w) ↦
          (let bound = s 0 rest n (omega arith) w in
            let less : sub_size (suc left) n ≡ suc left - n = omega arith in
            let (k, p, q, g) =
              send_loop-Ends fuel (λ i. write (suc i)) bytes wire (m + n) (sub_size (suc left) n)
                (λ i. s (suc i)) h (omega (arith, bound, size, less))
                (omega (arith, bound, less)) in
            (
              k,
              p,
              send_loop_wrote fuel write bytes (wire ++ take m bytes) (suc left) n (omega arith) w
                  ∙ ap (send_loop fuel (λ i. write (suc i)) bytes (sub_size (suc left) n)) (
                      sent_next bytes wire m (suc left) n (sub_size (length bytes) (suc left))
                        (omega (arith, bound, size)) here)
                  ∙ q,
              λ f. g (λ i. f (suc i)),
            ))
    ]

-- `send` ends after at most as many writes as there are bytes and one turn more, if write(2) takes
-- at least one of the bytes that it is given and no more than these: it has sent a prefix of the
-- buffer, and all of it if no write failed. The buffer is as before.
pub send-Ends :
    (fuel : ℕ) (write : ℕ → List ℕ → WriteResult) (c : Connection)
    → ((i : ℕ) → IsSocketWrite (write i))
    → length (contents c.read_buffer) < fuel
    → length (contents c.read_buffer) < 2 ^ 64
    → (k : ℕ) × (k ≤ length (contents c.read_buffer))
      × (send fuel write c ≡ some (record c { wire = c.wire ++ take k (contents c.read_buffer) }))
      × (((i : ℕ) → NeverFails (write i)) → k ≡ length (contents c.read_buffer))
unfolding send
send-Ends fuel write c s f h =
    let bytes = contents c.read_buffer in
    elim (Bool-cases (length bytes == 0)) [
      | inl empty ↦ (
        0,
        omega arith,
        rw empty (ap (λ w. some (record c { wire = w })) (sym (append-nil c.wire))),
        λ g. ground arith,
      )
      | inr full ↦
          (let (k, p, q, g) =
              send_loop-Ends fuel write bytes c.wire 0 (length bytes) s h (omega arith) f in
            (
              k,
              p,
              rw
                  (
                    full,
                    ap (send_loop fuel write bytes (length bytes)) (sym (append-nil c.wire)) ∙ q,
                  )
                  refl,
              g,
            ))
    ]
