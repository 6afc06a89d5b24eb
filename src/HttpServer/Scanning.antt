-- ===== src/HttpServer/Scanning.antt =====
-- HttpServer: lines, words, blanks and the first colon of a text that is put together of parts.
use knet_lib.Common.{
  ℕ, ◌==◌, ◌≡◌, refl, sym, ap, ◌∙◌, Bool, true, false, List, [], ◌∷◌, ◌++◌, some, Bool-cases, inl,
  inr, false≢true, if◌then◌else◌, ne→==,
}
use knet_lib.HttpServer.{
  newline, colon, is_space, is_blank, lines, words, onto_first, trim_front, trim_back, trim,
  split_colon,
}

-- No character of the text is one of those.
abbrev pub IsFree : (ℕ → Bool) → List ℕ → Type 0
IsFree p [] = Unit
IsFree p (c ∷ cs) = (p c ≡ false) × IsFree p cs

abbrev pub is_newline : ℕ → Bool
is_newline c = c == newline

abbrev pub is_colon : ℕ → Bool
is_colon c = c == colon

-- The test for it.
abbrev pub all_free : (ℕ → Bool) → List ℕ → Bool
all_free p [] = true
all_free p (c ∷ cs) = let rest = all_free p cs in if p c then false else rest

pub IsFree-all : (p : ℕ → Bool) (xs : List ℕ) → all_free p xs ≡ true → IsFree p xs
IsFree-all p [] e = tt
IsFree-all p (c ∷ cs) e = elim (Bool-cases (p c)) [
  | inl f ↦ absurd (false≢true (rw f at e))
  | inr f ↦ (f, IsFree-all p cs (rw f at e))
]

pub IsFree-append :
    (p : ℕ → Bool) (xs ys : List ℕ) → IsFree p xs → IsFree p ys → IsFree p (xs ++ ys)
IsFree-append p [] ys f g = g
IsFree-append p (x ∷ xs) ys f g = (f.0, IsFree-append p xs ys f.1 g)

pub lines-append :
    (l rest : List ℕ) → IsFree is_newline l → lines (l ++ newline ∷ rest) ≡ l ∷ lines rest
unfolding lines
lines-append [] rest f = refl
lines-append (c ∷ cs) rest f = rw (f.0, lines-append cs rest f.1) refl

words-append :
    (c : ℕ) (cs : List ℕ) (s : ℕ) (rest : List ℕ)
    → IsFree is_space (c ∷ cs)
    → is_space s ≡ true
    → words ((c ∷ cs) ++ s ∷ rest) ≡ (c ∷ cs) ∷ words rest
unfolding words
words-append c [] s rest f e = rw (f.0, e) refl
words-append c (d ∷ ds) s rest f e =
    rw (f.0, f.1.0) (ap (onto_first c) (rw f.1.0 at (words-append d ds s rest f.1 e)))

trim_back-blank :
    (xs : List ℕ) (c : ℕ) → is_blank c ≡ true → trim_back (xs ++ c ∷ []) ≡ trim_back xs
unfolding trim_back
trim_back-blank [] c e = rw e refl
trim_back-blank (x ∷ xs) c e = rw (trim_back-blank xs c e) refl

trim-blank : (xs : List ℕ) (c : ℕ) → is_blank c ≡ true → trim (xs ++ c ∷ []) ≡ trim xs
unfolding trim trim_front
trim-blank [] c e = rw e refl
trim-blank (x ∷ xs) c e = elim (Bool-cases (is_blank x)) [
  | inl b ↦ rw b (trim-blank xs c e)
  | inr b ↦ rw b (trim_back-blank (x ∷ xs) c e)
]

pub split_colon-append :
    (key value : List ℕ)
    → IsFree is_colon key
    → split_colon (key ++ colon ∷ value) ≡ some (key, value)
unfolding split_colon
split_colon-append [] value f = refl
split_colon-append (c ∷ cs) value f = rw (f.0, split_colon-append cs value f.1) refl

pub trim_around : (value : List ℕ) → trim (32 ∷ value ++ 13 ∷ []) ≡ trim value
unfolding trim trim_front
trim_around value = trim-blank value 13 refl

-- A word of the request line: not empty, and no space in it.
abbrev pub IsWord : List ℕ → Type 0
IsWord [] = ⊥
IsWord (c ∷ cs) = IsFree is_space (c ∷ cs)

pub words-word :
    (w : List ℕ) (s : ℕ) (rest : List ℕ)
    → IsWord w
    → is_space s ≡ true
    → words (w ++ s ∷ rest) ≡ w ∷ words rest
words-word [] s rest f e = absurd f
words-word (c ∷ cs) s rest f e = words-append c cs s rest f e

-- No space is no line's end either.
is_space-newline : (c : ℕ) → is_space c ≡ false → is_newline c ≡ false
is_space-newline c e = ne→== c newline (λ same. false≢true (sym e ∙ ap is_space same))

pub IsFree-line : (w : List ℕ) → IsFree is_space w → IsFree is_newline w
IsFree-line [] f = tt
IsFree-line (c ∷ cs) f = (is_space-newline c f.0, IsFree-line cs f.1)

pub IsWord-line : (w : List ℕ) → IsWord w → IsFree is_newline w
IsWord-line [] f = tt
IsWord-line (c ∷ cs) f = IsFree-line (c ∷ cs) f
