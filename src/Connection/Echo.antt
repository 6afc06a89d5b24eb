-- ===== src/Connection/Echo.antt =====
-- Connection: what `echo` writes back, and when it ends.
use knet_lib.Common.{
  ℕ, ◌+◌, ◌≤◌, ◌==◌, ◌≡◌, refl, sym, ap, ◌∙◌, true, List, [], ◌∷◌, ◌++◌, length, take, take_all,
  append_assoc, append-nil, length-append, arith, Outcome, ok, crash, exit_failure, Returns,
  Returns-ok, ◌>>=◌,
}
use knet_lib.Sys.{
  ReadResult, received, read_failed, received_bytes, WriteResult, wrote, write_failed, eintr,
  eagain,
}
use knet_lib.Buffer.{Buffer, contents, append, max_size}
use knet_lib.Buffer.Valid.{IsValid, Holds, append-Returns}
use knet_lib.Connection.{Connection, Turn, going_on, replied, gone, reply, echo_turn, echo}

-- The answers after which the loop goes on.
abbrev pub IsInterim : ReadResult → Type 0
IsInterim (received []) = ⊥
IsInterim (received (x ∷ xs)) = Unit
IsInterim (read_failed errno) = (errno == eintr) ≡ true

abbrev pub AllInterim : List ReadResult → Type 0
AllInterim [] = Unit
AllInterim (r ∷ rs) = IsInterim r × AllInterim rs

-- The bytes of answers in a row.
abbrev pub all_bytes : List ReadResult → List ℕ
all_bytes [] = []
all_bytes (r ∷ rs) = received_bytes r ++ all_bytes rs

-- After some answers the loop stands as if it began with a buffer that holds their bytes.
abbrev pub Advanced :
    (List ℕ → WriteResult) → List ReadResult → List ReadResult → Connection → Type 0
Advanced write rs rest c =
    (b : Buffer) × Holds (contents c.read_buffer ++ all_bytes rs)
      (c.read_buffer.writer_index + length (all_bytes rs)) b
    × (echo write (rs ++ rest) c ≡ echo write rest (record c { read_buffer = b }))

echo_interrupted :
    (write : List ℕ → WriteResult) (errno : ℕ) (rs : List ReadResult) (c : Connection)
    → (errno == eintr) ≡ true
    → echo write (read_failed errno ∷ rs) c ≡ echo write rs c
unfolding echo echo_turn
echo_interrupted write errno rs c e = rw e refl

echo_received :
    (write : List ℕ → WriteResult) (x : ℕ) (xs : List ℕ) (rs : List ReadResult) (c : Connection)
    (b : Buffer)
    → append (x ∷ xs) c.read_buffer ≡ ok b
    → echo write (received (x ∷ xs) ∷ rs) c ≡ echo write rs (record c { read_buffer = b })
unfolding echo echo_turn
echo_received write x xs rs c b e = rw e refl

pub echo_advances :
    (write : List ℕ → WriteResult) (rs rest : List ReadResult) (c : Connection)
    → IsValid c.read_buffer
    → AllInterim rs
    → c.read_buffer.writer_index + length (all_bytes rs) ≤ max_size
    → Advanced write rs rest c
echo_advances write [] rest c v i h =
    (c.read_buffer, (v, sym (append-nil (contents c.read_buffer)), omega arith), refl)
echo_advances write (received [] ∷ rs) rest c v i h = absurd (i.0)
echo_advances write (read_failed errno ∷ rs) rest c v i h =
    let (b, p, q) = echo_advances write rs rest c v i.1 h in
    (b, p, echo_interrupted write errno (rs ++ rest) c i.0 ∙ q)
echo_advances write (received (x ∷ xs) ∷ rs) rest c v i h =
    let size = length-append (x ∷ xs) (all_bytes rs) in
    let (b, e, p) =
      Returns-ok _ (append (x ∷ xs) c.read_buffer) (append-Returns (x ∷ xs) v (omega arith)) in
    let (b', k, q) =
      echo_advances write rs rest (record c { read_buffer = b }) p.0 i.1 (omega (arith, p.2)) in
    (
      b',
      (
        k.0,
        k.1
            ∙ ap (λ bs. bs ++ all_bytes rs) p.1
            ∙ append_assoc (contents c.read_buffer) (x ∷ xs) (all_bytes rs),
        omega (arith, k.2, p.2),
      ),
      echo_received write x xs (rs ++ rest) c b e ∙ q,
    )

reply_wrote :
    (write : List ℕ → WriteResult) (c : Connection) (n : ℕ)
    → write (contents c.read_buffer) ≡ wrote n
    → reply write c ≡ ok (replied (record c { wire = c.wire ++ take n (contents c.read_buffer) }))
unfolding reply
reply_wrote write c n e = rw (e, reply) refl

reply_failed :
    (write : List ℕ → WriteResult) (c : Connection) (errno : ℕ)
    → write (contents c.read_buffer) ≡ write_failed errno
    → reply write c ≡ crash exit_failure
unfolding reply
reply_failed write c errno e = rw (e, reply) refl

echo_again :
    (write : List ℕ → WriteResult) (rs : List ReadResult) (c : Connection) (b : Buffer) (n : ℕ)
    → write (contents b) ≡ wrote n
    → echo write (read_failed eagain ∷ rs) (record c { read_buffer = b })
      ≡ ok (replied (record c { read_buffer = b; wire = c.wire ++ take n (contents b) }))
unfolding echo echo_turn
echo_again write rs c b n e = rw (reply_wrote write (record c { read_buffer = b }) n e) refl

-- `echo` reads until the socket is empty, through interruptions, and then writes the contents of
-- the buffer once; the input is behind the earlier bytes in a buffer that stays valid, as long as
-- the bytes fit.
pub echo_reply :
    (write : List ℕ → WriteResult) (rs rest : List ReadResult) (c : Connection) (n : ℕ)
    → IsValid c.read_buffer
    → AllInterim rs
    → c.read_buffer.writer_index + length (all_bytes rs) ≤ max_size
    → write (contents c.read_buffer ++ all_bytes rs) ≡ wrote n
    → (b : Buffer) × Holds
        (contents c.read_buffer ++ all_bytes rs)
        (c.read_buffer.writer_index + length (all_bytes rs))
        b
      × (echo write (rs ++ read_failed eagain ∷ rest) c
          ≡ ok (
              replied (record c {
                read_buffer = b;
                wire = c.wire ++ take n (contents c.read_buffer ++ all_bytes rs);
              })))
echo_reply write rs rest c n v i h e =
    let (b, p, q) = echo_advances write rs (read_failed eagain ∷ rest) c v i h in
    (
      b,
      p,
      q
          ∙ echo_again write rest c b n (ap write p.1 ∙ e)
          ∙ ap (λ bs. ok (replied (record c { read_buffer = b; wire = c.wire ++ take n bs }))) p.1,
    )

echo_refused :
    (write : List ℕ → WriteResult) (rs : List ReadResult) (c : Connection) (errno : ℕ)
    → write (contents c.read_buffer) ≡ write_failed errno
    → echo write (read_failed eagain ∷ rs) c ≡ crash exit_failure
unfolding echo echo_turn
echo_refused write rs c errno e = rw (reply_failed write c errno e) refl

-- A write that fails after the socket was read empty, if only because it has no room, ends the
-- process.
pub echo_exits :
    (write : List ℕ → WriteResult) (rs rest : List ReadResult) (c : Connection) (errno : ℕ)
    → IsValid c.read_buffer
    → AllInterim rs
    → c.read_buffer.writer_index + length (all_bytes rs) ≤ max_size
    → write (contents c.read_buffer ++ all_bytes rs) ≡ write_failed errno
    → echo write (rs ++ read_failed eagain ∷ rest) c ≡ crash exit_failure
echo_exits write rs rest c errno v i h e =
    let (b, p, q) = echo_advances write rs (read_failed eagain ∷ rest) c v i h in
    q ∙ echo_refused write rest (record c { read_buffer = b }) errno (ap write p.1 ∙ e)

-- The next event on a connection that has replied.
abbrev pub next_event : (List ℕ → WriteResult) → List ReadResult → Turn → Outcome Turn
next_event write rs (replied c) = echo write rs c
next_event write rs (going_on c) = ok (going_on c)
next_event write rs (gone c) = ok (gone c)

-- A reply after which these bytes have been written.
abbrev pub HasReplied : List ℕ → Turn → Type 0
HasReplied bytes (replied c) = c.wire ≡ bytes
HasReplied bytes (going_on c) = ⊥
HasReplied bytes (gone c) = ⊥

-- A socket with room for everything.
abbrev pub TakesAll : (List ℕ → WriteResult) → Type 0
TakesAll write = (bytes : List ℕ) → write bytes ≡ wrote (length bytes)

-- On a connection with an empty buffer and a socket that takes everything, the reply to the second
-- input begins with the first input again: after two events the bytes of the first have been
-- written twice, and then those of the second.
pub echo_resends :
    (write : List ℕ → WriteResult) (rs rs' : List ReadResult) (c : Connection)
    → TakesAll write
    → IsValid c.read_buffer
    → contents c.read_buffer ≡ []
    → AllInterim rs
    → AllInterim rs'
    → c.read_buffer.writer_index + length (all_bytes rs) + length (all_bytes rs') ≤ max_size
    → Returns (HasReplied (c.wire ++ all_bytes rs ++ all_bytes rs ++ all_bytes rs')) (
        echo write (rs ++ read_failed eagain ∷ []) c
        >>= next_event write (rs' ++ read_failed eagain ∷ []))
echo_resends write rs rs' c t v z i i' h =
    let first = contents c.read_buffer ++ all_bytes rs in
    let (b, p, q) = echo_reply write rs [] c (length first) v i (omega arith) (t first) in
    let c' : Connection = record c {
      read_buffer = b;
      wire = c.wire ++ take (length first) first;
    } in
    let second = contents b ++ all_bytes rs' in
    let (b', p', q') =
      echo_reply write rs' [] c' (length second) p.0 i' (omega (arith, p.2)) (t second) in
    rw
      (
        q,
        q',
        take_all (length second) second (omega arith),
        take_all (length first) first (omega arith),
        p.1,
        z,
      )
      (sym (append_assoc (c.wire ++ all_bytes rs) (all_bytes rs) (all_bytes rs')))
