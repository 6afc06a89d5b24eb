-- ===== src/Common/Results.antt =====
-- What a call can come to: a value, or the end of the process.
use mathlib.Core.Path.{◌≡◌, refl}
use mathlib.Core.Bool.{Bool, true, false}

-- `assert` (a build without NDEBUG), FATAL and SYSFATAL of include/knetlib/Logger.h, `errif` of
-- src/utils.cpp, std::length_error of a vector that would outgrow its `max_size`, std::runtime_error
-- of ThreadPool, and the use of a null pointer or of an object that was deleted.
pub data Failure : Type 0 where
  assertion fatal exit_failure length_error runtime_error null_pointer dangling : Failure

pub data Outcome {ℓ} (A : Type ℓ) : Type ℓ where
  ok : A → Outcome A
  crash : Failure → Outcome A

infixl 5 ◌>>=◌ ◌>>◌
abbrev pub ◌>>=◌ {ℓ κ} : {A : Type ℓ} {B : Type κ} → Outcome A → (A → Outcome B) → Outcome B
ok a >>= f = f a
crash e >>= f = crash e

abbrev pub ◌>>◌ {ℓ} : {B : Type ℓ} → Outcome (Unit {0}) → Outcome B → Outcome B
m >> k = m >>= λ _. k

-- `assert(b)`.
abbrev pub check : Bool → Outcome (Unit {0})
check true = ok tt
check false = crash assertion

-- The call returns, and its value satisfies `P`.
abbrev pub Returns {ℓ} : {A : Type ℓ} → (A → Type 0) → Outcome A → Type 0
Returns P (ok a) = P a
Returns P (crash e) = ⊥

-- Two calls in sequence.
pub Returns-bind {ℓ} :
    {A B : Type ℓ} (P : A → Type 0) (Q : B → Type 0) (m : Outcome A) (f : A → Outcome B)
    → Returns P m
    → ((a : A) → P a → Returns Q (f a))
    → Returns Q (m >>= f)
Returns-bind P Q (ok a) f h k = k a h
Returns-bind P Q (crash e) f h k = absurd h

-- A weaker postcondition.
pub Returns-map {ℓ} :
    {A : Type ℓ} (P Q : A → Type 0) (m : Outcome A)
    → Returns P m
    → ((a : A) → P a → Q a)
    → Returns Q m
Returns-map P Q (ok a) h k = k a h
Returns-map P Q (crash e) h k = h

-- The value that a call returns.
pub Returns-ok {ℓ} :
    {A : Type ℓ} (P : A → Type 0) (m : Outcome A) → Returns P m → (a : A) × (m ≡ ok a) × P a
Returns-ok P (ok a) h = (a, refl, h)
Returns-ok P (crash e) h = absurd h

-- If the call returns, its value satisfies `P`.
abbrev pub IfReturns {ℓ} : {A : Type ℓ} → (A → Type 0) → Outcome A → Type 0
IfReturns P (ok a) = P a
IfReturns P (crash e) = Unit

pub any_outcome {ℓ} : {A : Type ℓ} (m : Outcome A) → IfReturns (λ a. Unit) m
any_outcome (ok a) = tt
any_outcome (crash e) = tt

pub IfReturns-bind {ℓ κ} :
    {A : Type ℓ} {B : Type κ} (P : A → Type 0) (Q : B → Type 0) (m : Outcome A) (f : A → Outcome B)
    → IfReturns P m
    → ((a : A) → P a → IfReturns Q (f a))
    → IfReturns Q (m >>= f)
IfReturns-bind P Q (ok a) f h k = k a h
IfReturns-bind P Q (crash e) f h k = tt

-- An assertion in front of a call.
pub IfReturns-check {ℓ} :
    {B : Type ℓ} (Q : B → Type 0) (b : Bool) (k : Outcome B)
    → (b ≡ true → IfReturns Q k)
    → IfReturns Q (check b >> k)
IfReturns-check Q true k h = h refl
IfReturns-check Q false k h = tt
