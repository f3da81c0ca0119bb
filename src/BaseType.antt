-- ===== src/BaseType.antt =====
-- foreign_basetype.c: the conversions between Python objects and C scalars. A width `w` is in
-- bytes, so that `uint_getfrom 4` is the source's `uint32_getfrom`.
pub mod Floats
pub mod Integers
pub mod Chars
pub mod Frames
pub mod Types
pub mod Accepted
pub mod Widths
use pycallocs.Prelude.{
  ℕ, zero, suc, ◌+◌, ◌-◌, ◌*◌, ◌/◌, ◌%◌, ◌^◌, Bool, true, false, ◌||◌, List, [], ◌∷◌, ℤ, pos,
  negsuc, ltb_ℤ, ltb, ◌==◌, if◌then◌else◌, Error, type_error, overflow_error, Result, ok, err,
  ◌>>=◌, not,
}
use pycallocs.Memory.{Mem, write, load, store}
use pycallocs.Python.{Python, Stored, stored, refused}
use pycallocs.Python.Objects.{Kind, bytes, unicode, bytearray, long, other}

-- UINTn_MAX, and -INTn_MIN = INTn_MAX + 1
abbrev pub uint_max : ℕ → ℕ
uint_max w = 256 ^ w - 1

abbrev pub int_half : ℕ → ℕ
int_half w = 256 ^ w / 2

-- The value of a two's complement pattern of `w` bytes, and the pattern of a value.
unfoldable pub to_signed : ℕ → ℕ → ℤ
to_signed w v = if ltb v (int_half w) then pos v else negsuc (256 ^ w - 1 - v)

unfoldable pub of_signed : ℕ → ℤ → ℕ
of_signed w (pos n) = n % 256 ^ w
of_signed w (negsuc n) = 256 ^ w - 1 - n % 256 ^ w

-- The `n` bytes from `a` on, as `PyBytes_FromStringAndSize` reads them.
unfoldable pub bytes_at : ℕ → Mem → ℕ → List ℕ
bytes_at zero m a = []
bytes_at (suc n) m a = m a ∷ bytes_at n m (a + 1)

-- What a failed conversion, or the write of a converted value, leaves.
abbrev pub store_result {ℓ} : {A : Type ℓ} → Mem → Result A → (A → Stored) → Stored
store_result m (ok a) f = f a
store_result m (err e) f = refused m e

module _ (py : Python) where
  open py use {Obj, kind, is_true, from_bool, from_int, as_ulonglong, as_longlong, from_bytes}

  unfoldable pub bool_getfrom : Mem → ℕ → Obj
  bool_getfrom m a = from_bool (not (m a == 0))

  unfoldable pub bool_storeinto : Obj → ℕ → Mem → Stored
  bool_storeinto obj dest m =
      store_result m (is_true obj) (λ b. stored (write m dest (if b then 1 else 0)))

  unfoldable pub uint_getfrom : ℕ → Mem → ℕ → Obj
  uint_getfrom w m a = from_int (pos (load w m a))

  unfoldable pub uint_storeinto : ℕ → Obj → ℕ → Mem → Stored
  uint_storeinto w obj dest m = store_result m (as_ulonglong obj) (λ u.
      if ltb (uint_max w) u
      then refused m overflow_error
      else stored (store w m dest (u % 256 ^ w)))

  unfoldable pub int_getfrom : ℕ → Mem → ℕ → Obj
  int_getfrom w m a = from_int (to_signed w (load w m a))

  unfoldable pub int_storeinto : ℕ → Obj → ℕ → Mem → Stored
  int_storeinto w obj dest m = store_result m (as_longlong obj) (λ i.
      if ltb_ℤ i (negsuc (int_half w - 1)) || ltb_ℤ (pos (int_half w - 1)) i
      then refused m overflow_error
      else stored (store w m dest (of_signed w i)))

  -- The one item of a string of length 1.
  unfoldable pub single : List ℕ → Result Obj
  single (c ∷ []) = ok (from_int (pos c))
  single [] = err type_error
  single (c ∷ d ∷ cs) = err type_error

  unfoldable pub char_of_kind : Obj → Kind → Result Obj
  char_of_kind obj (bytes cs) = single cs
  char_of_kind obj (unicode cs) = single cs
  char_of_kind obj (bytearray cs) = single cs
  char_of_kind obj long = ok obj
  char_of_kind obj other = err type_error

  unfoldable pub char_to_long : Obj → Result Obj
  unfolding single char_of_kind
  char_to_long obj = char_of_kind obj (kind obj)

  unfoldable pub char_getfrom : ℕ → Mem → ℕ → Obj
  unfolding bytes_at
  char_getfrom w m a = from_bytes (bytes_at w m a)

  unfoldable pub uchar_storeinto : ℕ → Obj → ℕ → Mem → Stored
  uchar_storeinto w obj dest m = store_result m (char_to_long obj) (λ c. uint_storeinto w c dest m)

  unfoldable pub schar_storeinto : ℕ → Obj → ℕ → Mem → Stored
  schar_storeinto w obj dest m = store_result m (char_to_long obj) (λ c. int_storeinto w c dest m)
