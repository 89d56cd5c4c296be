-- ===== src/Prelude/Results.antt =====
-- The outcome of code that may throw. The errors are the exception kinds of stx/exception.h that
-- the library raises.
use mathlib.Core.Bool.{Bool, true, false}
use mathlib.Core.Option.{Option, none, some}

pub data Error : Type 0 where
  runtime_error illegal_argument illegal_state not_found not_implemented : Error
  buffer_overflow eof invalid_conversion index_error type_error : Error

-- `undefined` is a run whose behaviour C++ does not define, such as a read through a null pointer.
pub data Result {ℓ} (A : Type ℓ) : Type ℓ where
  ok : A → Result A
  err : Error → Result A
  undefined : Result A

infixl 5 ◌>>=◌ ◌>>◌
abbrev pub ◌>>=◌ {ℓ κ} : {A : Type ℓ} {B : Type κ} → Result A → (A → Result B) → Result B
ok a >>= f = f a
err e >>= f = err e
undefined >>= f = undefined

abbrev pub ◌>>◌ {ℓ} : {B : Type ℓ} → Result (Unit {0}) → Result B → Result B
m >> k = m >>= λ _. k

-- RCHECK, and an `if` around a RAISE.
abbrev pub check : Bool → Error → Result (Unit {0})
check true e = ok tt
check false e = err e

-- A read that throws where it fails.
abbrev pub need {ℓ} : {A : Type ℓ} → Error → Option A → Result A
need e none = err e
need e (some a) = ok a

-- A condition without which the behaviour is undefined.
abbrev pub assume : Bool → Result (Unit {0})
assume true = ok tt
assume false = undefined
