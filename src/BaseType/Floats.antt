-- ===== src/BaseType/Floats.antt =====
-- The floating-point conversions of foreign_basetype.c. The formats are those of the platform and
-- the numbers those of CPython, so both are a parameter: `narrow w` and `widen w` are the C casts
-- between `double` and the bit pattern of the float type of `w` bytes.
use pycallocs.Prelude.{ℕ, ◌+◌, ◌/◌, Result}
use pycallocs.Memory.{Mem, load, store}
use pycallocs.Python.{Stored, stored}
use pycallocs.BaseType.{store_result}

pub record Floats (Obj : Type 0) : Type 1 where
  pub Double : Type 0
  pub widen : ℕ → ℕ → Double
  pub narrow : ℕ → Double → ℕ
  -- PyFloat_AsDouble, PyFloat_FromDouble, PyComplex_AsCComplex, PyComplex_FromDoubles
  pub as_double : Obj → Result Double
  pub from_double : Double → Obj
  pub as_complex : Obj → Result (Double × Double)
  pub from_doubles : Double → Double → Obj

module _ (Obj : Type 0) (fl : Floats Obj) where
  open fl use {Double, widen, narrow, as_double, from_double, as_complex, from_doubles}

  unfoldable pub float_getfrom : ℕ → Mem → ℕ → Obj
  float_getfrom w m a = from_double (widen w (load w m a))

  unfoldable pub float_storeinto : ℕ → Obj → ℕ → Mem → Stored
  float_storeinto w obj dest m =
      store_result m (as_double obj) (λ f. stored (store w m dest (narrow w f)))

  -- A complex number of `w` bytes is its real and its imaginary half.
  unfoldable pub complex_getfrom : ℕ → Mem → ℕ → Obj
  complex_getfrom w m a =
      let half = w / 2 in
      from_doubles (widen half (load half m a)) (widen half (load half m (a + half)))

  unfoldable pub complex_storeinto : ℕ → Obj → ℕ → Mem → Stored
  complex_storeinto w obj dest m =
      let half = w / 2 in
      store_result m (as_complex obj) (λ z.
        stored (store half (store half m dest (narrow half z.0)) (dest + half) (narrow half z.1)))
