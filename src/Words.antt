-- ===== src/Words.antt =====
-- size_t, 64 bits wide, and the bytes of an integer in the memory of a host of either byte order
-- (the htobe and be64toh family of <endian.h>, memcpy from and to an integer).
use mathlib.Core.List.{reverse-reverse, reverse-cons}
use knet_lib.Common.{
  ℕ, zero, suc, ◌+◌, ◌-◌, ◌*◌, ◌/◌, ◌%◌, ◌^◌, ◌<◌, ◌≡◌, refl, sym, ap, ◌∙◌, ◌++◌, List, [], ◌∷◌,
  reverse, arith, length, length-append,
}

-- size_t addition and subtraction wrap.
abbrev pub add_size : ℕ → ℕ → ℕ
add_size a b = (a + b) % 2 ^ 64

abbrev pub sub_size : ℕ → ℕ → ℕ
sub_size a b = (a + 2 ^ 64 - b) % 2 ^ 64

pub data Endian : Type 0 where
  little big : Endian

-- The bytes of an `n`-byte integer, lowest first. An integer is its bit pattern.
unfoldable pub le_bytes : ℕ → ℕ → List ℕ
le_bytes zero x = []
le_bytes (suc n) x = x % 256 ∷ le_bytes n (x / 256)

unfoldable pub of_le_bytes : List ℕ → ℕ
of_le_bytes [] = 0
of_le_bytes (b ∷ bs) = b + 256 * of_le_bytes bs

-- The memory that holds the integer `x` of `n` bytes, and the integer that memory holds.
unfoldable pub store : Endian → ℕ → ℕ → List ℕ
store little n x = le_bytes n x
store big n x = reverse (le_bytes n x)

unfoldable pub load : Endian → List ℕ → ℕ
load little bs = of_le_bytes bs
load big bs = of_le_bytes (reverse bs)

-- htobe16, htobe32 and htobe64; be16toh, be32toh and be64toh are the same functions.
unfoldable pub htobe : Endian → ℕ → ℕ → ℕ
htobe little n x = of_le_bytes (reverse (le_bytes n x))
htobe big n x = x

-- A list of `n` bytes.
abbrev pub AreBytes : List ℕ → Type 0
AreBytes [] = Unit {0}
AreBytes (b ∷ bs) = (b < 256) × AreBytes bs

pub length-le_bytes : (n x : ℕ) → length (le_bytes n x) ≡ n
unfolding le_bytes
length-le_bytes zero x = refl
length-le_bytes (suc n) x = ap suc (length-le_bytes n (x / 256))

-- 256 ^ n, the first number that `n` bytes do not hold.
abbrev pub int_bound : ℕ → ℕ
int_bound zero = 1
int_bound (suc n) = 256 * int_bound n

-- Network byte order: highest byte first.
abbrev pub be_bytes : ℕ → ℕ → List ℕ
be_bytes n x = reverse (le_bytes n x)

of_le_bytes-le_bytes : (n x : ℕ) → x < int_bound n → of_le_bytes (le_bytes n x) ≡ x
unfolding of_le_bytes le_bytes
of_le_bytes-le_bytes zero x h = omega arith
of_le_bytes-le_bytes (suc n) x h = omega (arith, of_le_bytes-le_bytes n (x / 256) (omega arith))

le_bytes-of_le_bytes :
    (bs : List ℕ) (n : ℕ) → AreBytes bs → n ≡ length bs → le_bytes n (of_le_bytes bs) ≡ bs
unfolding of_le_bytes le_bytes
le_bytes-of_le_bytes [] zero h e = refl
le_bytes-of_le_bytes [] (suc n) h e = absurd (omega arith)
le_bytes-of_le_bytes (b ∷ bs) zero h e = absurd (omega arith)
le_bytes-of_le_bytes (b ∷ bs) (suc n) h e =
    let low : (b + 256 * of_le_bytes bs) % 256 ≡ b = omega arith in
    let rest : (b + 256 * of_le_bytes bs) / 256 ≡ of_le_bytes bs = omega arith in
    rw (low, rest) (ap (◌∷◌ b) (le_bytes-of_le_bytes bs n h.1 (omega arith)))

AreBytes-append : (xs ys : List ℕ) → AreBytes xs → AreBytes ys → AreBytes (xs ++ ys)
AreBytes-append [] ys h k = k
AreBytes-append (x ∷ xs) ys h k = (h.0, AreBytes-append xs ys h.1 k)

AreBytes-reverse : (xs : List ℕ) → AreBytes xs → AreBytes (reverse xs)
AreBytes-reverse [] h = h
AreBytes-reverse (x ∷ xs) h =
    rw (reverse-cons x xs)
      (AreBytes-append (reverse xs) (x ∷ []) (AreBytes-reverse xs h.1) (h.0, tt))

length-reverse : (xs : List ℕ) → length (reverse xs) ≡ length xs
length-reverse [] = refl
length-reverse (x ∷ xs) =
    rw (reverse-cons x xs) (omega (arith, length-append (reverse xs) (x ∷ []), length-reverse xs))

le_bytes-AreBytes : (n x : ℕ) → AreBytes (le_bytes n x)
unfolding le_bytes
le_bytes-AreBytes zero x = tt
le_bytes-AreBytes (suc n) x = (omega arith, le_bytes-AreBytes n (x / 256))

pub length-be_bytes : (n x : ℕ) → length (be_bytes n x) ≡ n
length-be_bytes n x = length-reverse (le_bytes n x) ∙ length-le_bytes n x

-- The bytes of the swapped value, in the order of a little-endian host.
le_bytes-be : (n x : ℕ) → le_bytes n (of_le_bytes (be_bytes n x)) ≡ be_bytes n x
le_bytes-be n x =
    le_bytes-of_le_bytes (be_bytes n x) n (AreBytes-reverse _ (le_bytes-AreBytes n x))
      (sym (length-be_bytes n x))

pub store-htobe : (host : Endian) (n x : ℕ) → store host n (htobe host n x) ≡ be_bytes n x
unfolding store htobe
store-htobe little n x = le_bytes-be n x
store-htobe big n x = refl

pub htobe-load :
    (host : Endian) (n x : ℕ) → x < int_bound n → htobe host n (load host (be_bytes n x)) ≡ x
unfolding load htobe
htobe-load little n x h = rw (le_bytes-be n x, reverse-reverse) (of_le_bytes-le_bytes n x h)
htobe-load big n x h = rw reverse-reverse (of_le_bytes-le_bytes n x h)
