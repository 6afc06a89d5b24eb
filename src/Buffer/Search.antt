-- ===== src/Buffer/Search.antt =====
-- Buffer: findCRLF and findEOL of include/knetlib/Buffer.h.
use knet_lib.Common.{
  ℕ, zero, suc, ◌+◌, ◌-◌, ◌≤◌, ◌<◌, ◌==◌, ◌≡◌, refl, ap, ◌∙◌, Bool, true, false, ◌&&◌, List, [],
  ◌∷◌, Option, none, some, ◌⊎◌, inl, inr, arith, length, get_elem?, drop, leb, if◌then◌else◌,
  Bool-cases, eq→==, lt→==, le→leb, sym, subst, Returns, false≢true, ◌↔◌, Outcome, ok, check, ◌>>◌,
}
use knet_lib.Memory.{slice, length-slice}
use knet_lib.Words.{sub_size}
use knet_lib.Buffer.{Buffer, contents}
use knet_lib.Buffer.Valid.{IsValid, no_wrap, length-contents}

abbrev pub carriage_return : ℕ
carriage_return = 13

abbrev pub line_feed : ℕ
line_feed = 10

-- A text that begins with a line feed, or with "\r\n".
abbrev pub at_eol : List ℕ → Bool
at_eol [] = false
at_eol (c ∷ cs) = c == line_feed

abbrev pub at_crlf : List ℕ → Bool
at_crlf [] = false
at_crlf (c ∷ cs) = c == carriage_return && at_eol cs

-- The first index at which the text that is left passes the test, or the length of the text: what
-- std::search returns, and memchr but for its null pointer.
unfoldable pub first_index : (List ℕ → Bool) → List ℕ → ℕ
first_index test [] = 0
first_index test (c ∷ cs) = if test (c ∷ cs) then 0 else suc (first_index test cs)

pub memchr_eol : List ℕ → Option ℕ
memchr_eol bytes = let i = first_index at_eol bytes in if i == length bytes then none else some i

-- Results are indices into the vector; `none` is the null pointer.
unfoldable pub find_crlf : Buffer → Option ℕ
find_crlf b =
    let crlf = b.reader_index + first_index at_crlf (contents b) in
    if crlf == b.writer_index then none else some crlf

pub find_crlf_from : ℕ → Buffer → Outcome (Option ℕ)
find_crlf_from start b = do
  check (leb b.reader_index start)
  check (leb start b.writer_index)
  let crlf = start + first_index at_crlf (slice b.buffer start (sub_size b.writer_index start))
  ok (if crlf == b.writer_index then none else some crlf)

pub find_eol : Buffer → Option ℕ
find_eol b = elim (memchr_eol (contents b)) [ none ↦ none | some i ↦ some (b.reader_index + i) ]

pub find_eol_from : ℕ → Buffer → Outcome (Option ℕ)
find_eol_from start b = do
  check (leb b.reader_index start)
  check (leb start b.writer_index)
  ok (elim (memchr_eol (slice b.buffer start (sub_size b.writer_index start))) [
    | none ↦ none
    | some i ↦ some (start + i)
  ])

-- The text at `k` is a line feed; a carriage return and a line feed.
abbrev pub IsEolAt : List ℕ → ℕ → Type 0
IsEolAt bytes k = get_elem? bytes k ≡ some line_feed

abbrev pub IsCrlfAt : List ℕ → ℕ → Type 0
IsCrlfAt bytes k = (get_elem? bytes k ≡ some carriage_return) × IsEolAt bytes (suc k)

-- `r` is the first place, from `base` on, where `At` holds; `none` if there is no place.
abbrev pub IsFirst : (ℕ → Type 0) → ℕ → Option ℕ → Type 0
IsFirst At base r =
    ((r ≡ none) × ((k : ℕ) → ¬ At k))
    ⊎ ((k : ℕ) × (r ≡ some (base + k)) × At k × ((j : ℕ) → j < k → ¬ At j))

-- What `first_index` finds.
abbrev Finds : (List ℕ → Bool) → List ℕ → ℕ → Type 0
Finds test bytes i =
    ((i ≡ length bytes) × ((k : ℕ) → test (drop k bytes) ≡ false))
    ⊎ ((i < length bytes)
        × (test (drop i bytes) ≡ true)
        × ((j : ℕ) → j < i → test (drop j bytes) ≡ false))

Finds-nil : (test : List ℕ → Bool) → test [] ≡ false → (k : ℕ) → test (drop k []) ≡ false
Finds-nil test h zero = h
Finds-nil test h (suc k) = h

module _ (test : List ℕ → Bool) (c : ℕ) (cs : List ℕ) (here : test (c ∷ cs) ≡ false) where
  none-cons : ((k : ℕ) → test (drop k cs) ≡ false) → (k : ℕ) → test (drop k (c ∷ cs)) ≡ false
  none-cons h zero = here
  none-cons h (suc k) = h k

  before-cons :
      (i : ℕ)
      → ((j : ℕ) → j < i → test (drop j cs) ≡ false)
      → (j : ℕ) → j < suc i
      → test (drop j (c ∷ cs)) ≡ false
  before-cons i h zero p = here
  before-cons i h (suc j) p = h j (omega arith)

  Finds-cons : (i : ℕ) → Finds test cs i → Finds test (c ∷ cs) (suc i)
  Finds-cons i (inl (e, h)) = inl (ap suc e, none-cons h)
  Finds-cons i (inr (l, h, p)) = inr (omega arith, h, before-cons i p)

first_index-Finds :
    (test : List ℕ → Bool) (bytes : List ℕ)
    → test [] ≡ false
    → Finds test bytes (first_index test bytes)
unfolding first_index
first_index-Finds test [] h = inl (refl, Finds-nil test h)
first_index-Finds test (c ∷ cs) h = elim (Bool-cases (test (c ∷ cs))) [
  | inl here ↦ rw here (inr (omega arith, here, λ j p. absurd (omega arith)))
  | inr later ↦
      rw later (Finds-cons test c cs later (first_index test cs) (first_index-Finds test cs h))
]

at_eol-drop : (bytes : List ℕ) (k : ℕ) → (at_eol (drop k bytes) ≡ true) ↔ IsEolAt bytes k
at_eol-drop [] zero = (λ h. cc, λ h. cc)
at_eol-drop [] (suc k) = (λ h. cc, λ h. cc)
at_eol-drop (c ∷ cs) zero = (λ h. ground arith, λ h. ground arith)
at_eol-drop (c ∷ cs) (suc k) = at_eol-drop cs k

at_crlf-drop : (bytes : List ℕ) (k : ℕ) → (at_crlf (drop k bytes) ≡ true) ↔ IsCrlfAt bytes k
at_crlf-drop [] zero = (λ h. cc, λ h. cc)
at_crlf-drop [] (suc k) = (λ h. cc, λ h. cc)
at_crlf-drop (c ∷ cs) zero =
    (λ h. ground (arith, (at_eol-drop cs 0).0), λ h. ground (arith, (at_eol-drop cs 0).1))
at_crlf-drop (c ∷ cs) (suc k) = at_crlf-drop cs k

-- The place of an index among the bytes from `base` on.
abbrev found_at : List ℕ → ℕ → ℕ → Option ℕ
found_at bytes base i = if i == length bytes then none else some (base + i)

-- A pointer is compared with the end of the readable bytes.
found_at-eq :
    (bytes : List ℕ) (base i end : ℕ)
    → end ≡ base + length bytes
    → (if base + i == end then none else some (base + i)) ≡ found_at bytes base i
found_at-eq bytes base i end e = ground arith

-- A test that decides `At` finds the first place where it holds.
module _ (test : List ℕ → Bool) (At : ℕ → Type 0) (bytes : List ℕ)
    (decides : (k : ℕ) → (test (drop k bytes) ≡ true) ↔ At k) where
  not-At : (k : ℕ) → test (drop k bytes) ≡ false → ¬ At k
  not-At k h a = false≢true (sym h ∙ (decides k).1 a)

  Finds-IsFirst : (base i : ℕ) → Finds test bytes i → IsFirst At base (found_at bytes base i)
  Finds-IsFirst base i (inl (e, h)) = inl (rw (eq→== _ _ e) refl, λ k. not-At k (h k))
  Finds-IsFirst base i (inr (l, h, before)) =
      inr (i, rw (lt→== _ _ l) refl, (decides i).0 h, λ j p. not-At j (before j p))

crlf-IsFirst :
    (bytes : List ℕ) (base : ℕ)
    → IsFirst (IsCrlfAt bytes) base (found_at bytes base (first_index at_crlf bytes))
crlf-IsFirst bytes base =
    Finds-IsFirst at_crlf (IsCrlfAt bytes) bytes (at_crlf-drop bytes) base _
      (first_index-Finds at_crlf bytes refl)

-- `findCRLF` gives the first "\r\n" of the readable bytes of a valid buffer, and the null pointer
-- exactly when there is none.
pub find_crlf-IsFirst :
    (b : Buffer) → IsValid b → IsFirst (IsCrlfAt (contents b)) b.reader_index (find_crlf b)
unfolding find_crlf
find_crlf-IsFirst b v =
    subst (IsFirst (IsCrlfAt (contents b)) b.reader_index)
      (sym (
        found_at-eq (contents b) b.reader_index _ b.writer_index
          (omega (arith, length-contents v, no_wrap v, v.ordered))))
      (crlf-IsFirst (contents b) b.reader_index)

-- `findCRLF(start)`, from a position between the read and the write position, gives the first
-- "\r\n" from there on, and the null pointer exactly when there is none.
pub find_crlf_from-Returns :
    (b : Buffer) (start : ℕ)
    → IsValid b
    → b.reader_index ≤ start
    → start ≤ b.writer_index
    → Returns
        (IsFirst (IsCrlfAt (slice b.buffer start (b.writer_index - start))) start)
        (find_crlf_from start b)
unfolding find_crlf_from
find_crlf_from-Returns b start v h k =
    let size : sub_size b.writer_index start ≡ b.writer_index - start =
      omega (arith, v.small, v.inside) in
    rw (le→leb _ _ h, le→leb _ _ k, size)
      (subst (IsFirst (IsCrlfAt (slice b.buffer start (b.writer_index - start))) start)
        (sym (
          found_at-eq (slice b.buffer start (b.writer_index - start)) start _ b.writer_index (
            omega (
              arith,
              length-slice b.buffer start (b.writer_index - start) (omega (arith, v.inside)),
            ))))
        (crlf-IsFirst _ start))

-- `findEOL` gives the first line feed of the readable bytes, and the null pointer exactly when
-- there is none.
pub find_eol-IsFirst : (b : Buffer) → IsFirst (IsEolAt (contents b)) b.reader_index (find_eol b)
unfolding find_eol memchr_eol
find_eol-IsFirst b = subst (IsFirst (IsEolAt (contents b)) b.reader_index) (ground arith) (
    Finds-IsFirst at_eol (IsEolAt (contents b)) (contents b) (at_eol-drop (contents b))
      b.reader_index _ (first_index-Finds at_eol (contents b) refl))
