-- ===== src/BaseType/Frames.antt =====
-- Every conversion of a base type, the floating-point ones included, writes inside its own cell
-- only, and writes nothing where it fails.
use pycallocs.Prelude.{
  ℕ, ◌+◌, ◌/◌, ◌*◌, ◌≡◌, refl, ◌≢◌, arith, none, Result, ok, err, true, false, Error, Bool,
  if◌then◌else◌, ◌∙◌,
}
use pycallocs.Memory.{Mem}
use pycallocs.Memory.Frame.{SameOutside, SameOutside-store}
use pycallocs.Python.{Python, Stored, stored, refused}
use pycallocs.BaseType.{
  store_result, bool_storeinto, uint_storeinto, int_storeinto, char_to_long, uchar_storeinto,
  schar_storeinto,
}
use pycallocs.BaseType.Floats.{Floats, float_storeinto, complex_storeinto}
use pycallocs.BaseType.Types.{
  StoreInto, store_bool, store_uint, store_int, store_uchar, store_schar, store_float,
  store_complex, storeinto,
}

-- The bytes that a conversion may write.
abbrev pub store_size : StoreInto → ℕ
store_size store_bool = 1
store_size (store_uint w) = w
store_size (store_int w) = w
store_size (store_uchar w) = w
store_size (store_schar w) = w
store_size (store_float w) = w
store_size (store_complex w) = 2 * (w / 2)

-- A store of `n` bytes at `dest` keeps to them, and a failed one leaves the memory as it was.
pub record IsContained (n dest : ℕ) (m : Mem) (s : Stored) : Type 0 where
  pub same : SameOutside dest n m s.mem
  pub unless_failed : s.status ≢ none → s.mem ≡ m

IsContained-refused : (n dest : ℕ) (m : Mem) (e : Error) → IsContained n dest m (refused m e)
IsContained-refused n dest m e = record { same = λ q out. refl; unless_failed = λ h. refl }

IsContained-stored :
    (n dest : ℕ) (m m' : Mem) → SameOutside dest n m m' → IsContained n dest m (stored m')
IsContained-stored n dest m m' same = record { same = same; unless_failed = λ h. absurd (h refl) }

IsContained-store_result :
    {A : Type 0} (n dest : ℕ) (m : Mem) (r : Result A) (f : A → Stored)
    → ((a : A) → IsContained n dest m (f a))
    → IsContained n dest m (store_result m r f)
IsContained-store_result n dest m (ok a) f h = h a
IsContained-store_result n dest m (err e) f h = IsContained-refused n dest m e

IsContained-checked :
    (n dest : ℕ) (m m' : Mem) (e : Error) (b : Bool)
    → SameOutside dest n m m'
    → IsContained n dest m (if b then refused m e else stored m')
IsContained-checked n dest m m' e true same = IsContained-refused n dest m e
IsContained-checked n dest m m' e false same = IsContained-stored n dest m m' same

module _ (py : Python) (w : ℕ) (obj : py.Obj) (dest : ℕ) (m : Mem) where
  IsContained-uint : IsContained w dest m (uint_storeinto py w obj dest m)
  unfolding uint_storeinto
  IsContained-uint =
      IsContained-store_result w dest m (py.as_ulonglong obj) _
        (λ u. IsContained-checked w dest m _ _ _ (SameOutside-store w m dest _))

  IsContained-int : IsContained w dest m (int_storeinto py w obj dest m)
  unfolding int_storeinto
  IsContained-int =
      IsContained-store_result w dest m (py.as_longlong obj) _
        (λ i. IsContained-checked w dest m _ _ _ (SameOutside-store w m dest _))

module _ (Obj : Type 0) (fl : Floats Obj) (w : ℕ) (obj : Obj) (dest : ℕ) (m : Mem) where
  IsContained-float : IsContained w dest m (float_storeinto Obj fl w obj dest m)
  unfolding float_storeinto
  IsContained-float =
      IsContained-store_result w dest m (fl.as_double obj) _
        (λ f. IsContained-stored w dest m _ (SameOutside-store w m dest _))

  IsContained-complex : IsContained (2 * (w / 2)) dest m (complex_storeinto Obj fl w obj dest m)
  unfolding complex_storeinto
  IsContained-complex = IsContained-store_result (2 * (w / 2)) dest m (fl.as_complex obj) _ (λ z.
      IsContained-stored (2 * (w / 2)) dest m _ (λ q out.
        SameOutside-store (w / 2) _ (dest + w / 2) (fl.narrow (w / 2) z.1) q (omega arith)
        ∙ SameOutside-store (w / 2) m dest (fl.narrow (w / 2) z.0) q (omega arith)))

-- Whatever object a conversion is given, it writes only the bytes of its own width at `dest`, and
-- where it fails (returns -1) the memory is what it was.
pub storeinto-IsContained :
    (py : Python) (fl : Floats py.Obj) (s : StoreInto) (obj : py.Obj) (dest : ℕ) (m : Mem)
    → IsContained (store_size s) dest m (storeinto py fl s obj dest m)
unfolding storeinto bool_storeinto uchar_storeinto schar_storeinto
storeinto-IsContained py fl store_bool obj dest m =
    IsContained-store_result 1 dest m (py.is_true obj) _
      (λ b. IsContained-stored 1 dest m _ (λ q out. ground arith))
storeinto-IsContained py fl (store_uint w) obj dest m = IsContained-uint py w obj dest m
storeinto-IsContained py fl (store_int w) obj dest m = IsContained-int py w obj dest m
storeinto-IsContained py fl (store_uchar w) obj dest m =
    IsContained-store_result w dest m (char_to_long py obj) _ (λ c. IsContained-uint py w c dest m)
storeinto-IsContained py fl (store_schar w) obj dest m =
    IsContained-store_result w dest m (char_to_long py obj) _ (λ c. IsContained-int py w c dest m)
storeinto-IsContained py fl (store_float w) obj dest m = IsContained-float py.Obj fl w obj dest m
storeinto-IsContained py fl (store_complex w) obj dest m =
    IsContained-complex py.Obj fl w obj dest m
