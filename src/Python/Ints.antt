-- ===== src/Python/Ints.antt =====
-- A small Python in which the facts of `Python` hold: booleans, ints and bytes.
use pycallocs.Prelude.{
  ℕ, ◌^◌, ◌<◌, ◌≡◌, refl, List, Bool, true, ℤ, pos, negsuc, overflow_error, type_error, Result, ok,
  err, ltb, if◌then◌else◌, arith,
}
use pycallocs.Python.{Python}
use pycallocs.Python.Objects.{Kind, bytes, long}

pub data PyInts : Type 0 where
  bool : Bool → PyInts
  int : ℤ → PyInts
  byte_string : List ℕ → PyInts

abbrev pub kind_of : PyInts → Kind
kind_of (bool b) = long
kind_of (int i) = long
kind_of (byte_string bs) = bytes bs

abbrev pub truth : PyInts → Result Bool
truth (bool b) = ok b
truth x = ok true

abbrev pub to_ulonglong : PyInts → Result ℕ
to_ulonglong (int (pos n)) = if ltb n (2 ^ 64) then ok n else err overflow_error
to_ulonglong (int (negsuc n)) = err overflow_error
to_ulonglong x = err type_error

abbrev pub to_longlong : PyInts → Result ℤ
to_longlong (int (pos n)) = if ltb n (2 ^ 63) then ok (pos n) else err overflow_error
to_longlong (int (negsuc n)) = if ltb n (2 ^ 63) then ok (negsuc n) else err overflow_error
to_longlong x = err type_error

pub to_ulonglong-int : (u : ℕ) → u < 2 ^ 64 → to_ulonglong (int (pos u)) ≡ ok u
to_ulonglong-int u h = ground arith

pub to_longlong-pos : (n : ℕ) → n < 2 ^ 63 → to_longlong (int (pos n)) ≡ ok (pos n)
to_longlong-pos n h = ground arith

pub to_longlong-negsuc : (n : ℕ) → n < 2 ^ 63 → to_longlong (int (negsuc n)) ≡ ok (negsuc n)
to_longlong-negsuc n h = ground arith

pub truth-bool : (b : Bool) → truth (bool b) ≡ ok b
truth-bool b = refl

pub kind_of-bytes : (bs : List ℕ) → kind_of (byte_string bs) ≡ bytes bs
kind_of-bytes bs = refl

pub kind_of-int : (i : ℤ) → kind_of (int i) ≡ long
kind_of-int i = refl

abbrev pub ints : Python
ints = record {
  Obj = PyInts;
  kind = kind_of;
  is_true = truth;
  from_bool = bool;
  from_int = int;
  as_ulonglong = to_ulonglong;
  as_longlong = to_longlong;
  from_bytes = byte_string;
  is_true-from_bool = truth-bool;
  as_ulonglong-from_int = to_ulonglong-int;
  as_longlong-from_pos = to_longlong-pos;
  as_longlong-from_negsuc = to_longlong-negsuc;
  kind-from_bytes = kind_of-bytes;
  kind-from_int = kind_of-int;
}
