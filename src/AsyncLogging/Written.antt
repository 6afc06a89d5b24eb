-- ===== src/AsyncLogging/Written.antt =====
-- AsyncLogging: what is written reaches the log files in order, whether or not they are rolled.
use knet_lib.AsyncLogging.{
  Files, roll_file, roll_if_full, contents_of, write_buffer, write_buffers, concat,
}
use knet_lib.Common.{
  ℕ, suc, leb, ◌≡◌, refl, sym, Bool, true, Bool-cases, inl, inr, List, [], ◌∷◌, ◌++◌, Option, none,
  some, length, append_assoc, append-nil,
}

-- The bytes in the log files, oldest first.
abbrev pub logged : Files → List ℕ
logged fs = concat fs.rolled ++ contents_of fs.file

pub concat-append : (xs ys : List (List ℕ)) → concat (xs ++ ys) ≡ concat xs ++ concat ys
concat-append [] ys = refl
concat-append (x ∷ xs) ys = rw (concat-append xs ys, append_assoc) refl

pub concat-snoc : (xs : List (List ℕ)) (y : List ℕ) → concat (xs ++ y ∷ []) ≡ concat xs ++ y
concat-snoc xs y = rw (concat-append xs (y ∷ []), append-nil) refl

logged-roll_if_full : (n : ℕ) (fs : Files) → logged (roll_if_full n fs) ≡ logged fs
unfolding roll_if_full roll_file
logged-roll_if_full n fs = by_file fs.file fs.rolled
  where
    by_file :
        (o : Option (List ℕ)) (rs : List (List ℕ))
        → logged (roll_if_full n (record { file = o; rolled = rs }))
          ≡ logged (record { file = o; rolled = rs })
    by_file none rs = refl
    by_file (some b) rs = elim (Bool-cases (leb n (length b))) [
      | inl t ↦ rw (t, concat-snoc rs b, append-nil) refl
      | inr t ↦ rw t refl
    ]

pub logged-write_buffer :
    (b : List ℕ) (fs : Files) → logged (write_buffer true b fs) ≡ logged fs ++ b
unfolding write_buffer
logged-write_buffer b fs = sym (append_assoc (concat fs.rolled) (contents_of fs.file) b)

pub logged-write_buffers :
    (n : ℕ) (opens : ℕ → Bool) (bs : List (List ℕ)) (fs : Files)
    → ((i : ℕ) → opens i ≡ true)
    → logged (write_buffers n opens bs fs) ≡ logged fs ++ concat bs
unfolding write_buffers
logged-write_buffers n opens [] fs h = sym (append-nil (logged fs))
logged-write_buffers n opens (b ∷ bs) fs h =
    let ih =
      logged-write_buffers n (λ i. opens (suc i)) bs (write_buffer (opens 0) b (roll_if_full n fs))
        (λ i. h (suc i)) in
    rw (ih, h 0, logged-write_buffer b (roll_if_full n fs), logged-roll_if_full n fs, append_assoc)
      refl
