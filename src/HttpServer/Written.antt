-- ===== src/HttpServer/Written.antt =====
-- HttpServer: the headers that the server writes come back as they are.
use knet_lib.Common.{
  ℕ, zero, suc, ◌+◌, ◌/◌, ◌%◌, ◌<◌, ◌==◌, ◌≡◌, refl, Bool, true, false, List, [], ◌∷◌, Bool-cases,
  inl, inr, ne→==, arith,
}
use knet_lib.Text.{codes}
use knet_lib.Logger.Format.{digits}
use knet_lib.HttpServer.{newline, is_blank, trim_front, trim_back, trim, size_text}
use knet_lib.HttpServer.Scanning.{all_free, IsFree-all, IsFree, is_newline, is_colon, IsFree-append}
use knet_lib.HttpServer.Requests.{IsHeader}

trim_front-free : (xs : List ℕ) → IsFree is_blank xs → trim_front xs ≡ xs
unfolding trim_front
trim_front-free [] f = refl
trim_front-free (x ∷ xs) f = rw f.0 refl

trim_back-free : (xs : List ℕ) → IsFree is_blank xs → trim_back xs ≡ xs
unfolding trim_back
trim_back-free [] f = refl
trim_back-free (x ∷ xs) f = rw (f.0, trim_back-free xs f.1) refl

trim-free : (xs : List ℕ) → IsFree is_blank xs → trim xs ≡ xs
unfolding trim
trim-free xs f = rw (trim_front-free xs f) (trim_back-free xs f)

digits-IsFree :
    (p : ℕ → Bool)
    → ((n : ℕ) → n < 10 → p (48 + n) ≡ false)
    → (fuel n : ℕ) → IsFree p (digits fuel n)
unfolding digits
digits-IsFree p f zero n = tt
digits-IsFree p f (suc fuel) n = elim (Bool-cases (n / 10 == 0)) [
  | inl e ↦ rw e (f (n % 10) (omega arith), tt)
  | inr e ↦ rw e (
      IsFree-append p (digits fuel (n / 10)) _ (digits-IsFree p f fuel (n / 10))
        (f (n % 10) (omega arith), tt))
]

-- A digit is none of the small characters.
digit-apart : (c n : ℕ) → c < 48 → (48 + n == c) ≡ false
digit-apart c n h = ne→== (48 + n) c (λ e. omega (arith, e, h))

digit-blank : (n : ℕ) → is_blank (48 + n) ≡ false
digit-blank n =
    rw
      (
        digit-apart 32 n (omega arith),
        digit-apart 9 n (omega arith),
        digit-apart 13 n (omega arith),
        digit-apart 10 n (omega arith),
      )
      refl

-- The header of a number.
pub size_text-IsHeader : (n : ℕ) → IsHeader (codes "Content-Length") (size_text n)
unfolding trim trim_front trim_back
size_text-IsHeader n = record {
  key_trimmed = refl;
  value_trimmed = trim-free (size_text n) (digits-IsFree is_blank (λ k h. digit-blank k) 20 n);
  no_colon = IsFree-all is_colon (codes "Content-Length") refl;
  key_line = IsFree-all is_newline (codes "Content-Length") refl;
  value_line = digits-IsFree is_newline (λ k h. digit-apart newline k (omega arith)) 20 n;
}

pub text-IsHeader :
    (key value : List ℕ)
    → trim key ≡ key
    → trim value ≡ value
    → all_free is_colon key ≡ true
    → all_free is_newline key ≡ true
    → all_free is_newline value ≡ true
    → IsHeader key value
text-IsHeader key value k v c l m = record {
  key_trimmed = k;
  value_trimmed = v;
  no_colon = IsFree-all is_colon key c;
  key_line = IsFree-all is_newline key l;
  value_line = IsFree-all is_newline value m;
}
