-- ===== src/Prelude/Errors.antt =====
-- Fallible code: a Go function that returns a value and an `error` returns one of the two.
use mathlib.Core.Path.{◌≡◌, refl}
use mathlib.Core.Bool.{Bool, true, false}
use native.Mathlib.Omega.{arith}

pub data Result {ℓ} (E A : Type ℓ) : Type ℓ where
  ok : A → Result E A
  err : E → Result E A

infixl 5 ◌>>=◌ ◌>>◌
abbrev pub ◌>>=◌ {ℓ} : {E A B : Type ℓ} → Result E A → (A → Result E B) → Result E B
ok a >>= f = f a
err e >>= f = err e

abbrev pub ◌>>◌ {ℓ} : {E A B : Type ℓ} → Result E A → Result E B → Result E B
m >> k = m >>= λ _. k

-- `if cond { return err }`
abbrev pub refuse_if : {E : Type 0} → Bool → E → Result E (Unit {0})
refuse_if true e = err e
refuse_if false e = ok tt

-- A guard that let the code go on did not hold.
pub refuse_if-eq-ok :
    {E A : Type 0} (b : Bool) (e : E) (k : Result E A) {a : A}
    → (refuse_if b e >> k) ≡ ok a
    → (b ≡ false) × (k ≡ ok a)
refuse_if-eq-ok true e k h = ground arith
refuse_if-eq-ok false e k h = (refl, h)

abbrev pub is_ok {ℓ} : {E A : Type ℓ} → Result E A → Bool
is_ok (ok a) = true
is_ok (err e) = false

-- A chain that went through went through its first step.
pub first_step {ℓ} :
    {E A B : Type ℓ} {next : A → Result E B} {last : B} (step : Result E A)
    → (step >>= next) ≡ ok last
    → (value : A) × (step ≡ ok value) × (next value ≡ ok last)
first_step (ok value) through = (value, refl, through)
first_step (err e) through = ground arith
