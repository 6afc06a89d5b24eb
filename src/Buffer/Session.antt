-- ===== src/Buffer/Session.antt =====
-- Buffer against the queue of bytes that it promises to be.
use knet_lib.Common.{
  ℕ, ◌+◌, ◌≤◌, ◌<◌, ◌≡◌, refl, ap₂, max, inl, inr, ◌++◌, List, [], ◌∷◌, Option, none, some, arith,
  leb, length, take, drop, if◌then◌else◌, Outcome, ok, crash, assertion, ◌>>=◌, Returns, Returns-ok,
  leb→le, leb→lt, Bool-cases,
}
use knet_lib.Buffer.{Buffer, max_size, contents, append, retrieve_as_string, retrieve_all_as_string}
use knet_lib.Buffer.Valid.{
  IsValid, Holds, length-contents, append-Returns, retrieve_as_string-Returns,
  retrieve_all_as_string-Returns,
}

-- What a client of the buffer does in turn; `takes n` reads `n` bytes as a string.
pub data Call : Type 0 where
  puts : List ℕ → Call
  takes : ℕ → Call
  takes_all : Call

-- The calls in order, with the strings that they return.
unfoldable pub run : List Call → Buffer → Outcome (List (List ℕ) × Buffer)
run [] b = ok ([], b)
run (puts bytes ∷ calls) b = append bytes b >>= run calls
run (takes n ∷ calls) b = do
  (s, b') ← retrieve_as_string n b
  (out, c) ← run calls b'
  ok (s ∷ out, c)
run (takes_all ∷ calls) b = do
  (s, b') ← retrieve_all_as_string b
  (out, c) ← run calls b'
  ok (s ∷ out, c)

-- A string that was taken, in front of those that later calls take.
abbrev with_string : List ℕ → Option (List (List ℕ) × List ℕ) → Option (List (List ℕ) × List ℕ)
with_string s none = none
with_string s (some (out, q)) = some (s ∷ out, q)

-- The same calls of a queue of bytes; `none` where more is taken than is there.
unfoldable pub queue_run : List Call → List ℕ → Option (List (List ℕ) × List ℕ)
queue_run [] q = some ([], q)
queue_run (puts bytes ∷ calls) q = queue_run calls (q ++ bytes)
queue_run (takes n ∷ calls) q =
    let rest = queue_run calls (drop n q) in
    if leb n (length q) then with_string (take n q) rest else none
queue_run (takes_all ∷ calls) q = with_string q (queue_run calls [])

-- How many bytes the calls put in.
abbrev pub put_total : List Call → ℕ
put_total [] = 0
put_total (puts bytes ∷ calls) = length bytes + put_total calls
put_total (takes n ∷ calls) = put_total calls
put_total (takes_all ∷ calls) = put_total calls

-- Where the queue has an answer the buffer returns it and holds the queue; where it has none, the
-- buffer stops at an assertion.
abbrev pub Simulates : Option (List (List ℕ) × List ℕ) → Outcome (List (List ℕ) × Buffer) → Type 0
Simulates none r = r ≡ crash assertion
Simulates (some (out, q)) r = Returns (λ (out', b'). (out' ≡ out) × (contents b' ≡ q)) r

Simulates-with_string :
    (s t : List ℕ) (o : Option (List (List ℕ) × List ℕ)) (r : Outcome (List (List ℕ) × Buffer))
    → s ≡ t
    → Simulates o r
    → Simulates (with_string t o) (r >>= λ (out, c). ok (s ∷ out, c))
Simulates-with_string s t none (ok (out, c)) e h = cc
Simulates-with_string s t none (crash f) e h = cc
Simulates-with_string s t (some (out, q)) (ok (out', c)) e h = (ap₂ ◌∷◌ e h.0, h.1)
Simulates-with_string s t (some (out, q)) (crash f) e h = h

takes_too_many :
    {b : Buffer} (n : ℕ)
    → IsValid b
    → length (contents b) < n
    → retrieve_as_string n b ≡ crash assertion
unfolding retrieve_as_string
takes_too_many {b} n v h = ground (arith, length-contents v)

-- No sequence of appends and reads tells a valid buffer from a queue of the bytes it holds: the
-- strings it returns are the queue's, and it stops at an assertion exactly where more is taken
-- than is there, as long as the bytes that are put in fit a vector.
pub run_refines :
    (calls : List Call) {b : Buffer}
    → IsValid b
    → max 8 b.writer_index + put_total calls ≤ max_size
    → Simulates (queue_run calls (contents b)) (run calls b)
unfolding run queue_run
run_refines [] v h = (refl, refl)
run_refines (puts bytes ∷ calls) {b} v h =
    let (b', e, r) =
      Returns-ok (Holds (contents b ++ bytes) (b.writer_index + length bytes)) (append bytes b)
        (append-Returns bytes v (omega arith)) in
    rw (e, ← r.1) (run_refines calls r.0 (omega (arith, r.2)))
run_refines (takes n ∷ calls) {b} v h = elim (Bool-cases (leb n (length (contents b)))) [
  | inl fits ↦
      let ((s, b'), e, r) =
        Returns-ok _ (retrieve_as_string n b) (retrieve_as_string-Returns n v (leb→le _ _ fits)) in
      rw (e, fits, ← r.1.1)
        (Simulates-with_string s _ _ _ r.0 (run_refines calls r.1.0 (omega (arith, r.1.2))))
  | inr short ↦ rw (short, takes_too_many n v (leb→lt _ _ short)) refl
]
run_refines (takes_all ∷ calls) {b} v h =
    let ((s, b'), e, r) =
      Returns-ok _ (retrieve_all_as_string b) (retrieve_all_as_string-Returns v) in
    rw (e, ← r.1.1)
      (Simulates-with_string s _ _ _ r.0 (run_refines calls r.1.0 (omega (arith, r.1.2))))
