-- ===== src/Channel/Masks.antt =====
-- Channel: what the event masks say after each change.
use Prim.Native.Nat.{bit_and, bit_or, bit_and-bitwise}
use knet_lib.Common.{
  ℕ, zero, suc, ◌<◌, ◌==◌, ◌≡◌, refl, Bool, true, false, not, ◌&&◌, arith, ltb, ltb→lt, sym,
  if◌then◌else◌, Bool-cases, inl, inr, ap, ◌∙◌, false≢true, eq→==,
}
use knet_lib.Channel.{
  Channel, epollin, epollpri, epollout, has, without, is_reading, is_writing, read_enabled,
  write_enabled, read_disabled, write_disabled,
}

-- The mask is a union of EPOLLIN, EPOLLPRI and EPOLLOUT.
abbrev pub IsMask : ℕ → Type 0
IsMask events = events < 8

-- The test passes at every value under the bound.
passes : (ℕ → Bool) → ℕ → Bool
passes test zero = true
passes test (suc bound) = if test bound then passes test bound else false

passes-at :
    {x : ℕ} (test : ℕ → Bool) (bound : ℕ) → x < bound → passes test bound ≡ true → test x ≡ true
unfolding passes
passes-at test zero small h = absurd (omega arith)
passes-at {x} test (suc bound) small h = elim (Bool-cases (test bound)) [
  | inl t ↦ ground (arith, passes-at {x = x} test bound)
  | inr f ↦ absurd (false≢true (rw f at h))
]

infix 50 ◌<=>◌
abbrev ◌<=>◌ : Bool → Bool → Bool
true <=> b = b
false <=> b = not b

<=>-eq : (a b : Bool) → (a <=> b) ≡ true → a ≡ b
<=>-eq true true h = refl
<=>-eq true false h = cc
<=>-eq false true h = cc
<=>-eq false false h = refl

both : (a b : Bool) → (a && b) ≡ true → (a ≡ true) × (b ≡ true)
both true b h = (refl, h)
both false b h = cc

bit_and-zero_left : (bits : ℕ) → bit_and 0 bits ≡ 0
bit_and-zero_left bits = bit_and-bitwise 0 bits

-- What a change of the mask `e` into `e'` should do to the three bits, as a test.
abbrev becomes : ℕ → Bool → Bool → Bool → Bool
becomes e' reading priority writing =
    ltb e' 8
    && ((has e' epollin <=> reading)
        && ((has e' epollpri <=> priority) && (has e' epollout <=> writing)))

-- The mask watches for input, for urgent data and for room to write as told.
pub record Watches (e' : ℕ) (reading priority writing : Bool) : Type 0 where
  pub is_mask : IsMask e'
  pub reads : has e' epollin ≡ reading
  pub urgent : has e' epollpri ≡ priority
  pub writes : has e' epollout ≡ writing

becomes-Watches :
    (e' : ℕ) (reading priority writing : Bool)
    → becomes e' reading priority writing ≡ true
    → Watches e' reading priority writing
becomes-Watches e' r p w h =
    let (bound, bits) = both _ _ h in
    let (reads, rest) = both _ _ bits in
    let (urgent, writes) = both _ _ rest in
    record {
      is_mask = ltb→lt _ _ bound;
      reads = <=>-eq _ _ reads;
      urgent = <=>-eq _ _ urgent;
      writes = <=>-eq _ _ writes;
    }

abbrev pub is_urgent : Channel → Bool
is_urgent c = has c.events epollpri

module _ (c : Channel) (h : IsMask c.events) where
  -- `enableRead` watches for input and urgent data, and leaves EPOLLOUT as it was, on a mask of
  -- the three bits.
  pub read_enabled-Watches : Watches (read_enabled c).events true true (is_writing c)
  unfolding read_enabled passes
  read_enabled-Watches = becomes-Watches _ _ _ _ (
      passes-at (λ e. becomes (bit_or e (bit_or epollin epollpri)) true true (has e epollout)) 8 h
        refl)

  -- `enableWrite` sets EPOLLOUT alone.
  pub write_enabled-Watches : Watches (write_enabled c).events (is_reading c) (is_urgent c) true
  unfolding write_enabled passes
  write_enabled-Watches =
      becomes-Watches _ _ _ _ (
        passes-at (λ e. becomes (bit_or e epollout) (has e epollin) (has e epollpri) true) 8 h refl)

  -- `disableRead` clears EPOLLIN alone: EPOLLPRI, which `enableRead` sets with it, stays, on a
  -- mask of the three bits.
  pub read_disabled-Watches : Watches (read_disabled c).events false (is_urgent c) (is_writing c)
  unfolding read_disabled passes
  read_disabled-Watches = becomes-Watches _ _ _ _ (
      passes-at (λ e. becomes (without e epollin) false (has e epollpri) (has e epollout)) 8 h refl)

  -- `disableWrite` clears EPOLLOUT alone.
  pub write_disabled-Watches : Watches (write_disabled c).events (is_reading c) (is_urgent c) false
  unfolding write_disabled passes
  write_disabled-Watches = becomes-Watches _ _ _ _ (
      passes-at (λ e. becomes (without e epollout) (has e epollin) (has e epollpri) false) 8 h refl)

-- A mask with a bit of interest is not the empty mask.
pub has-ne-zero : (e bits : ℕ) → has e bits ≡ true → (e == 0) ≡ false
has-ne-zero zero bits h =
    absurd (false≢true (sym (ap not (eq→== _ _ (bit_and-zero_left bits))) ∙ h))
has-ne-zero (suc e) bits h = ground arith
