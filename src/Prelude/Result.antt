-- ===== src/Prelude/Result.antt =====
-- A Go function that returns a value or an error.
use mathlib.Core.Path.{◌≡◌, refl}
use mathlib.Core.Bool.{Bool, true, false}
use native.Mathlib.Omega.{arith}

pub data Result (E A : Type 0) : Type 0 where
  ok : A → Result E A
  err : E → Result E A

infixl 5 ◌>>=◌ ◌>>◌
abbrev pub ◌>>=◌ : {E A B : Type 0} → Result E A → (A → Result E B) → Result E B
ok a >>= f = f a
err e >>= f = err e

abbrev pub ◌>>◌ : {E B : Type 0} → Result E (Unit {0}) → Result E B → Result E B
m >> k = m >>= λ _. k

-- `if refused { return error }`
abbrev pub refuse_if : {E : Type 0} → Bool → E → Result E (Unit {0})
refuse_if true e = err e
refuse_if false e = ok tt

-- A sequence that gives a value has run its first part to a value.
pub bind_ok :
    {E A B : Type 0} (m : Result E A) (f : A → Result E B) {b : B}
    → (m >>= f) ≡ ok b
    → (a : A) × (m ≡ ok a) × (f a ≡ ok b)
bind_ok (ok a) f h = (a, refl, h)
bind_ok (err e) f h = cc

-- `fmt.Errorf` around an error
abbrev pub reword : {E F A : Type 0} → (E → F) → Result E A → Result F A
reword f (ok a) = ok a
reword f (err e) = err (f e)

pub reword_ok : {E F A : Type 0} (f : E → F) (r : Result E A) {a : A} → reword f r ≡ ok a → r ≡ ok a
reword_ok f (ok a) h = ground arith
reword_ok f (err e) h = cc
