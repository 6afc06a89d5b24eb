-- ===== src/Memory.antt =====
-- The memory that include/knetlib/Buffer.h moves with std::copy, memcpy and vector::resize: a list
-- of cells, a range of it read, a range of it written.
use knet_lib.Common.{
  ℕ, zero, suc, ◌+◌, ◌-◌, ◌≤◌, ◌≡◌, refl, ap, List, [], ◌∷◌, ◌++◌, arith, length, take, drop,
  replicate, length-append, length-take, length-drop, length-replicate, take-append-le,
  drop-append-le, take_all,
}

module _ {ℓ} {A : Type ℓ} where
  -- The `n` cells from index `i` on.
  abbrev pub slice : List A → ℕ → ℕ → List A
  slice xs i n = take n (drop i xs)

  -- The cells from index `i` on overwritten by `ds`; what would lie past the end is not written.
  unfoldable pub splice : List A → ℕ → List A → List A
  splice [] i ds = []
  splice (x ∷ xs) zero [] = x ∷ xs
  splice (x ∷ xs) zero (d ∷ ds) = d ∷ splice xs zero ds
  splice (x ∷ xs) (suc i) ds = x ∷ splice xs i ds

  -- vector::resize; new cells hold `a`.
  unfoldable pub resize : A → ℕ → List A → List A
  resize a n xs = take n xs ++ replicate (n - length xs) a

  pub length-splice : (xs : List A) (i : ℕ) (ds : List A) → length (splice xs i ds) ≡ length xs
  unfolding splice
  length-splice [] i ds = refl
  length-splice (x ∷ xs) zero [] = refl
  length-splice (x ∷ xs) zero (d ∷ ds) = ap suc (length-splice xs zero ds)
  length-splice (x ∷ xs) (suc i) ds = ap suc (length-splice xs i ds)

  pub length-resize : (a : A) (n : ℕ) (xs : List A) → length (resize a n xs) ≡ n
  unfolding resize
  length-resize a n xs = omega (
    arith,
    length-append (take n xs) (replicate (n - length xs) a),
    length-take n xs,
    length-replicate (n - length xs) a,
  )

  pub length-slice : (xs : List A) (i n : ℕ) → i + n ≤ length xs → length (slice xs i n) ≡ n
  length-slice xs i n h = omega (arith, length-take n (drop i xs), length-drop i xs)

  -- What was written is read back.
  pub slice-splice :
      (xs : List A) (i : ℕ) (ds : List A) (n : ℕ)
      → i + length ds ≤ length xs
      → n ≡ length ds
      → slice (splice xs i ds) i n ≡ ds
  unfolding splice
  slice-splice [] i [] zero h e = refl
  slice-splice [] i [] (suc n) h e = absurd (omega arith)
  slice-splice [] i (d ∷ ds) n h e = absurd (omega arith)
  slice-splice (x ∷ xs) zero [] zero h e = refl
  slice-splice (x ∷ xs) zero [] (suc n) h e = absurd (omega arith)
  slice-splice (x ∷ xs) zero (d ∷ ds) zero h e = absurd (omega arith)
  slice-splice (x ∷ xs) zero (d ∷ ds) (suc n) h e =
      ap (◌∷◌ d) (slice-splice xs zero ds n (omega arith) (omega arith))
  slice-splice (x ∷ xs) (suc i) ds n h e = slice-splice xs i ds n (omega arith) e

  slice-nil : (r m : ℕ) → slice [] r m ≡ []
  slice-nil zero zero = refl
  slice-nil zero (suc m) = refl
  slice-nil (suc r) zero = refl
  slice-nil (suc r) (suc m) = refl

  -- A write at the end of a range extends the range.
  pub slice-splice_end :
      (xs : List A) (r n : ℕ) (ds : List A) (i m : ℕ)
      → r + n + length ds ≤ length xs
      → i ≡ r + n
      → m ≡ n + length ds
      → slice (splice xs i ds) r m ≡ slice xs r n ++ ds
  unfolding splice
  slice-splice_end [] r n [] i m h e f = rw (slice-nil r m, slice-nil r n)
  slice-splice_end [] r n (d ∷ ds) i m h e f = absurd (omega arith)
  slice-splice_end (x ∷ xs) zero zero ds zero m h e f =
      slice-splice (x ∷ xs) zero ds m (omega arith) (omega arith)
  slice-splice_end (x ∷ xs) zero zero ds (suc i) m h e f = absurd (omega arith)
  slice-splice_end (x ∷ xs) zero (suc n) ds zero m h e f = absurd (omega arith)
  slice-splice_end (x ∷ xs) zero (suc n) ds (suc i) zero h e f = absurd (omega arith)
  slice-splice_end (x ∷ xs) zero (suc n) ds (suc i) (suc m) h e f =
      ap (◌∷◌ x) (slice-splice_end xs zero n ds i m (omega arith) (omega arith) (omega arith))
  slice-splice_end (x ∷ xs) (suc r) n ds zero m h e f = absurd (omega arith)
  slice-splice_end (x ∷ xs) (suc r) n ds (suc i) m h e f =
      slice-splice_end xs r n ds i m (omega arith) (omega arith) f

  -- A write just before a range extends the range to the left.
  pub slice-splice_front :
      (xs : List A) (r n : ℕ) (ds : List A) (i m : ℕ)
      → r + n ≤ length xs
      → r ≡ i + length ds
      → m ≡ length ds + n
      → slice (splice xs i ds) i m ≡ ds ++ slice xs r n
  unfolding splice
  slice-splice_front [] r n [] i m h e f = rw (slice-nil i m, slice-nil r n)
  slice-splice_front [] r n (d ∷ ds) i m h e f = absurd (omega arith)
  slice-splice_front (x ∷ xs) zero n [] zero m h e f = ap (λ k. take k (x ∷ xs)) (omega arith)
  slice-splice_front (x ∷ xs) zero n (d ∷ ds) zero m h e f = absurd (omega arith)
  slice-splice_front (x ∷ xs) (suc r) n [] zero m h e f = absurd (omega arith)
  slice-splice_front (x ∷ xs) (suc r) n (d ∷ ds) zero zero h e f = absurd (omega arith)
  slice-splice_front (x ∷ xs) (suc r) n (d ∷ ds) zero (suc m) h e f =
      ap (◌∷◌ d) (slice-splice_front xs r n ds zero m (omega arith) (omega arith) (omega arith))
  slice-splice_front (x ∷ xs) zero n ds (suc i) m h e f = absurd (omega arith)
  slice-splice_front (x ∷ xs) (suc r) n ds (suc i) m h e f =
      slice-splice_front xs r n ds i m (omega arith) (omega arith) f

  -- A range survives a resize that does not cut it.
  pub slice-resize :
      (a : A) (xs : List A) (r n k : ℕ)
      → r + n ≤ length xs
      → length xs ≤ k
      → slice (resize a k xs) r n ≡ slice xs r n
  unfolding resize
  slice-resize a xs r n k h e =
      rw (take_all k xs e, drop-append-le xs (replicate (k - length xs) a) r (omega arith))
        (take-append-le (drop r xs) (replicate (k - length xs) a) n
          (omega (arith, length-drop r xs)))

  take-take : (xs : List A) (k n : ℕ) → k ≤ n → take k (take n xs) ≡ take k xs
  take-take xs zero n h = refl
  take-take [] (suc k) (suc n) h = refl
  take-take xs (suc k) zero h = absurd (omega arith)
  take-take (x ∷ xs) (suc k) (suc n) h = ap (◌∷◌ x) (take-take xs k n (omega arith))

  drop-take : (xs : List A) (k n m : ℕ) → n ≡ k + m → drop k (take n xs) ≡ take m (drop k xs)
  drop-take xs zero n m h = ap (λ j. take j xs) (omega arith)
  drop-take xs (suc k) zero m h = absurd (omega arith)
  drop-take [] (suc k) (suc n) zero h = refl
  drop-take [] (suc k) (suc n) (suc m) h = refl
  drop-take (x ∷ xs) (suc k) (suc n) m h = drop-take xs k n m (omega arith)

  drop-drop : (xs : List A) (k i j : ℕ) → j ≡ i + k → drop k (drop i xs) ≡ drop j xs
  drop-drop xs k zero j h = ap (λ n. drop n xs) (omega arith)
  drop-drop xs k (suc i) zero h = absurd (omega arith)
  drop-drop [] zero (suc i) (suc j) h = refl
  drop-drop [] (suc k) (suc i) (suc j) h = refl
  drop-drop (x ∷ xs) k (suc i) (suc j) h = drop-drop xs k i j (omega arith)

  -- The front and the rest of a range are ranges.
  pub take-slice : (xs : List A) (r n k : ℕ) → k ≤ n → take k (slice xs r n) ≡ slice xs r k
  take-slice xs r n k h = take-take (drop r xs) k n h

  pub drop-slice :
      (xs : List A) (r n k : ℕ) (j m : ℕ)
      → n ≡ k + m
      → j ≡ r + k
      → drop k (slice xs r n) ≡ slice xs j m
  drop-slice xs r n k j m h e = rw (drop-take (drop r xs) k n m h, drop-drop xs k r j e)
