-- ===== src/BaseType/Chars.antt =====
-- The character conversions of foreign_basetype.c (`charN_getfrom`, `ucharN_storeinto`,
-- `scharN_storeinto`, `char_to_long`).
use pycallocs.Prelude.{
  ℕ, zero, suc, ◌≤◌, ◌<◌, ◌≡◌, refl, ◌⊎◌, inl, inr, arith, ok, err, pos, Bool-cases, ltb, ltb→lt,
  ltb→le, type_error, overflow_error,
}
use pycallocs.Memory.{Mem}
use pycallocs.Python.{Python, refused}
use mathlib.Core.Path.{subst}
use pycallocs.BaseType.{
  of_signed, int_storeinto, char_to_long, char_getfrom, uchar_storeinto, schar_storeinto,
}
use pycallocs.BaseType.Integers.{
  Holds, uint_storeinto-fits, int_storeinto-fits, int_storeinto-overflow,
}

module _ (py : Python) (a dest : ℕ) (m : Mem) (byte : m a < 256) where
  char_to_long-getfrom : char_to_long py (char_getfrom py 1 m a) ≡ ok (py.from_int (pos (m a)))
  unfolding char_to_long char_getfrom
  char_to_long-getfrom = rw py.kind-from_bytes refl

  -- An unsigned character that is read can be stored again.
  pub uchar_round_trip : Holds 1 dest (m a) m (uchar_storeinto py 1 (char_getfrom py 1 m a) dest m)
  unfolding uchar_storeinto
  uchar_round_trip = rw char_to_long-getfrom (
      uint_storeinto-fits py 1 _ dest m (m a) (py.as_ulonglong-from_int (m a) (omega arith))
        (omega arith))

  of_signed-byte : of_signed 1 (pos (m a)) ≡ m a
  unfolding of_signed
  of_signed-byte = omega arith

  from_byte : py.as_longlong (py.from_int (pos (m a))) ≡ ok (pos (m a))
  from_byte = py.as_longlong-from_pos (m a) (omega arith)

  -- A signed character that is read can be stored again exactly when its byte is below 128: the
  -- string of length 1 stands for the byte, not for the negative number of the character. From 128
  -- on the store raises OverflowError and writes nothing.
  pub schar_round_trip_cases :
      ((m a < 128) × Holds 1 dest (m a) m (schar_storeinto py 1 (char_getfrom py 1 m a) dest m))
      ⊎ ((128 ≤ m a)
          × (schar_storeinto py 1 (char_getfrom py 1 m a) dest m ≡ refused m overflow_error))
  unfolding schar_storeinto
  schar_round_trip_cases = elim (Bool-cases (ltb (m a) 128)) [
    | inl small ↦ inl (
      ltb→lt _ _ small,
      rw char_to_long-getfrom (
          subst (λ v. Holds 1 dest v m (int_storeinto py 1 (py.from_int (pos (m a))) dest m))
            of_signed-byte
            (int_storeinto-fits py 1 _ dest m (pos (m a)) from_byte (omega arith)
              (ltb→lt _ _ small))),
    )
    | inr large ↦ inr (
      ltb→le _ _ large,
      rw char_to_long-getfrom (
          int_storeinto-overflow py 1 _ dest m (pos (m a)) from_byte (omega arith)
            (ltb→le _ _ large)),
    )
  ]

char_to_long-wide :
    (py : Python) (w a : ℕ) (m : Mem)
    → 2 ≤ w
    → char_to_long py (char_getfrom py w m a) ≡ err type_error
unfolding char_to_long char_getfrom
char_to_long-wide py zero a m h = absurd (omega arith)
char_to_long-wide py (suc zero) a m h = absurd (omega arith)
char_to_long-wide py (suc (suc w)) a m h = rw py.kind-from_bytes refl

-- A character type of two bytes or more reads as a string of that length, and no string longer
-- than 1 is taken back: what is read can never be stored, and the attempt writes nothing.
pub wide_char_refused :
    (py : Python) (w a dest : ℕ) (m : Mem)
    → 2 ≤ w
    → (uchar_storeinto py w (char_getfrom py w m a) dest m ≡ refused m type_error)
      × (schar_storeinto py w (char_getfrom py w m a) dest m ≡ refused m type_error)
unfolding uchar_storeinto schar_storeinto
wide_char_refused py w a dest m h =
    (rw (char_to_long-wide py w a m h), rw (char_to_long-wide py w a m h))
