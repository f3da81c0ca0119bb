-- ===== src/Prelude/Results.antt =====
-- A Python exception or a value: what a C function of the module reports when it returns NULL or -1.
use mathlib.Core.Bool.{Bool, true, false}

-- The exception classes that the module raises; `raised` is one that Python code raised.
pub data Error : Type 0 where
  type_error : Error
  value_error : Error
  overflow_error : Error
  index_error : Error
  import_error : Error
  system_error : Error
  memory_error : Error
  raised : Error

pub data Result {ℓ} (A : Type ℓ) : Type ℓ where
  ok : A → Result A
  err : Error → Result A

abbrev pub is_ok {ℓ} : {A : Type ℓ} → Result A → Bool
is_ok (ok a) = true
is_ok (err e) = false

infixl 5 ◌>>=◌
abbrev pub ◌>>=◌ {ℓ κ} : {A : Type ℓ} {B : Type κ} → Result A → (A → Result B) → Result B
ok a >>= f = f a
err e >>= f = err e
