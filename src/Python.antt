-- ===== src/Python.antt =====
-- The part of CPython's C API that foreign_basetype.c and address_proxy.c call, as a parameter of
-- the model: `Python` holds the functions and the documented facts about them, and `ints` is a
-- small instance in which they hold. `Stored` is what a `ft_storeinto` leaves behind.
pub mod Objects
pub mod Ints
use pycallocs.Prelude.{
  ℕ, ◌^◌, ◌<◌, ◌≡◌, Option, none, some, List, Bool, ℤ, pos, negsuc, Error, Result, ok,
}
use pycallocs.Memory.{Mem}
use pycallocs.Python.Objects.{Kind, bytes, long}

-- The memory after a store and the exception that it set, if it returned -1.
pub record Stored : Type 0 where
  pub mem : Mem
  pub status : Option Error

abbrev pub stored : Mem → Stored
stored m = record { mem = m; status = none }

abbrev pub refused : Mem → Error → Stored
refused m e = record { mem = m; status = some e }

pub record Python : Type 1 where
  pub Obj : Type 0
  -- PyBytes_Check, PyUnicode_Check, PyByteArray_Check, PyLong_Check, with the contents
  pub kind : Obj → Kind
  -- PyObject_IsTrue, PyBool_FromLong
  pub is_true : Obj → Result Bool
  pub from_bool : Bool → Obj
  -- PyLong_FromLong, PyLong_FromLongLong, PyLong_FromUnsignedLongLong
  pub from_int : ℤ → Obj
  -- PyLong_AsUnsignedLongLong, PyLong_AsLongLong
  pub as_ulonglong : Obj → Result ℕ
  pub as_longlong : Obj → Result ℤ
  -- PyBytes_FromStringAndSize
  pub from_bytes : List ℕ → Obj
  pub is_true-from_bool : (b : Bool) → is_true (from_bool b) ≡ ok b
  pub as_ulonglong-from_int : (u : ℕ) → u < 2 ^ 64 → as_ulonglong (from_int (pos u)) ≡ ok u
  pub as_longlong-from_pos : (n : ℕ) → n < 2 ^ 63 → as_longlong (from_int (pos n)) ≡ ok (pos n)
  pub as_longlong-from_negsuc :
      (n : ℕ) → n < 2 ^ 63 → as_longlong (from_int (negsuc n)) ≡ ok (negsuc n)
  pub kind-from_bytes : (bs : List ℕ) → kind (from_bytes bs) ≡ bytes bs
  pub kind-from_int : (i : ℤ) → kind (from_int i) ≡ long
