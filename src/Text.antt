-- ===== src/Text.antt =====
-- Texts as lists of characters.
use Prim.Native.Char.{code}
use Prim.Native.String.{String}
use knet_lib.Common.{
  ℕ, ◌≡◌, refl, ap₂, eq→==, ==_iff, Bool, true, false, false≢true, Bool-cases, inl, inr, ◌&&◌, ◌==◌,
  List, [], ◌∷◌,
}

-- The characters of a literal.
abbrev pub codes : String → List ℕ
codes String.[] = []
codes (String.◌∷◌ c s) = code c ∷ codes s

abbrev pub same_text : List ℕ → List ℕ → Bool
same_text [] [] = true
same_text [] (y ∷ ys) = false
same_text (x ∷ xs) [] = false
same_text (x ∷ xs) (y ∷ ys) = x == y && same_text xs ys

pub same_text_refl : (xs : List ℕ) → same_text xs xs ≡ true
same_text_refl [] = refl
same_text_refl (x ∷ xs) = rw (eq→== x x refl) (same_text_refl xs)

pub same_text_eq : (xs ys : List ℕ) → same_text xs ys ≡ true → xs ≡ ys
same_text_eq [] [] e = refl
same_text_eq [] (y ∷ ys) e = absurd (cc)
same_text_eq (x ∷ xs) [] e = absurd (cc)
same_text_eq (x ∷ xs) (y ∷ ys) e = elim (Bool-cases (x == y)) [
  | inl a ↦ ap₂ (λ c cs. c ∷ cs) ((==_iff x y).0 a) (same_text_eq xs ys (rw a at e))
  | inr a ↦ absurd (false≢true (rw a at e))
]
