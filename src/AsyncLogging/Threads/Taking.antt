-- ===== src/AsyncLogging/Threads/Taking.antt =====
-- AsyncLogging: whatever there is to write, and whether or not a backlog is dropped, the rest of a
-- round fails no assertion.
use knet_lib.AsyncLogging.{Files, Logging, Front, max_buffers, collect, write_out}
use knet_lib.AsyncLogging.Rounds.{IsFed, HasSpares, IsReady}
use knet_lib.Common.{
  ℕ, ◌≤◌, ◌≡◌, refl, ◌⊎◌, inl, inr, Bool, Bool-cases, List, [], ◌∷◌, ◌++◌, Option, none, some,
  length, length-append, ltb, ok, arith,
}

-- The second spare buffer is there, or there are two buffers to make both of.
abbrev Suffices : Option (List ℕ) → List (List ℕ) → Type 0
Suffices two queue = ((b : List ℕ) × (two ≡ some b)) ⊎ ((two ≡ none) × (2 ≤ length queue))

module _ (n : ℕ) (opens : ℕ → Bool) where
  abbrev Runs : Logging → List (List ℕ) → Type 0
  Runs l queue = (l' : Logging) × (write_out n opens (l, queue) ≡ ok l')

  refilled :
      (front : Front) (two : Option (List ℕ)) (fs : Files) (queue : List (List ℕ))
      → (queue ≡ []) ⊎ Suffices two queue
      → Runs
          (record {
            front = front;
            back = record { new_buffer1 = none; new_buffer2 = two; files = fs };
          })
          queue
  unfolding write_out
  refilled front two fs [] h = (_, refl)
  refilled front (some b) fs (x ∷ []) h = (_, refl)
  refilled front none fs (x ∷ []) (inl e) = absurd (cc)
  refilled front none fs (x ∷ []) (inr (inl (b, e))) = absurd (cc)
  refilled front none fs (x ∷ []) (inr (inr (e, two))) = absurd (omega (arith, two))
  refilled front (some b) fs (x ∷ y ∷ zs) h =
      elim (Bool-cases (ltb max_buffers (length (x ∷ y ∷ zs)))) [
        | inl t ↦ rw t (_, refl)
        | inr t ↦ rw t (_, refl)
      ]
  refilled front none fs (x ∷ y ∷ zs) h =
      elim (Bool-cases (ltb max_buffers (length (x ∷ y ∷ zs)))) [
        | inl t ↦ rw t (_, refl)
        | inr t ↦ rw t (_, refl)
      ]

  parts-Runs :
      (current spare one two : Option (List ℕ)) (bs : List (List ℕ)) (fs : Files)
      → IsFed current spare bs
      → HasSpares one two
      → let l : Logging = record {
        front = record { current_buffer = current; next_buffer = spare; buffers = bs };
        back = record { new_buffer1 = one; new_buffer2 = two; files = fs };
      } in
        Runs (collect l).0 (collect l).1
  unfolding collect
  parts-Runs none spare one two bs fs fed spares = absurd fed
  parts-Runs (some c) spare none two bs fs fed spares = absurd spares
  parts-Runs (some c) spare (some a) none bs fs fed spares = absurd spares
  parts-Runs (some []) none (some a) (some b) bs fs fed spares = absurd (omega (arith, fed.1))
  parts-Runs (some []) (some d) (some a) (some b) bs fs fed spares =
      refilled _ (some b) fs bs (inr (inl (b, refl)))
  parts-Runs (some (x ∷ xs)) (some d) (some a) (some b) bs fs fed spares =
      refilled _ (some b) fs (bs ++ (x ∷ xs) ∷ []) (inr (inl (b, refl)))
  parts-Runs (some (x ∷ xs)) none (some a) (some b) bs fs fed spares =
      refilled _ none fs (bs ++ (x ∷ xs) ∷ [])
        (inr (inr (refl, omega (arith, fed.0, length-append bs ((x ∷ xs) ∷ [])))))

  -- What a thread that holds its two spare buffers takes, it can write.
  pub collect-Runs : (l : Logging) → IsReady l → Runs (collect l).0 (collect l).1
  collect-Runs l (fed, spares) =
      parts-Runs l.current_buffer l.next_buffer l.new_buffer1 l.new_buffer2 l.buffers l.files fed
        spares
