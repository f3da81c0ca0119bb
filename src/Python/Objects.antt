-- ===== src/Python/Objects.antt =====
-- What `char_to_long` of foreign_basetype.c asks of a Python object.
use pycallocs.Prelude.{ℕ, List}

-- `other` is an object of none of the four types.
pub data Kind : Type 0 where
  bytes : List ℕ → Kind
  unicode : List ℕ → Kind
  bytearray : List ℕ → Kind
  long : Kind
  other : Kind
