-- ===== src/Tests/BaseTypes.antt =====
-- foreign_basetype.c at concrete inputs.
use pycallocs.Prelude.{ℕ, ◌≡◌, ◌⊎◌, refl, arith, pos, negsuc, ok, overflow_error}
use pycallocs.Memory.{Mem, load}
use pycallocs.Memory.RoundTrip.{IsBytes}
use pycallocs.Python.{refused}
use pycallocs.Python.Ints.{PyInts, ints, int}
use pycallocs.BaseType.{int_storeinto, of_signed, to_signed}
use pycallocs.BaseType.Floats.{Floats}
use pycallocs.BaseType.Types.{
  BaseUniqtype, BaseForeignType, signed, foreign_base_type_new, get_int, store_int, getfrom,
  storeinto,
}
use pycallocs.BaseType.Widths.{InRange, OutOfRange}
use pycallocs.BaseType.Integers.{Holds, HoldsSigned, int_storeinto_cases}
use pycallocs.BaseType.Accepted.{getfrom-storeinto}

-- Every cell holds the byte 200.
abbrev memory : Mem
memory q = 200

memory-IsBytes : IsBytes memory
memory-IsBytes q = omega arith

-- A Python whose floats are bit patterns.
abbrev pub patterns : Floats PyInts
patterns = record {
  Double = ℕ;
  widen = λ w b. b;
  narrow = λ w d. d;
  as_double = λ o. ok 0;
  from_double = λ d. int (pos d);
  as_complex = λ o. ok (0, 0);
  from_doubles = λ x y. int (pos x);
}

abbrev int32 : BaseUniqtype
int32 = record { enc = signed; size = 4; bit_size = 32 }

abbrev int32_type : BaseForeignType
int32_type = record {
  ft_type = int32;
  ft_getfrom = get_int 4;
  ft_copyfrom = get_int 4;
  ft_storeinto = store_int 4;
}

int32_accepted : foreign_base_type_new int32 ≡ ok int32_type
unfolding foreign_base_type_new
int32_accepted = refl

getfrom-storeinto_example :
    Holds 4 64
      (load 4 memory 8)
      memory
      (storeinto ints patterns (store_int 4) (getfrom ints patterns (get_int 4) memory 8) 64 memory)
getfrom-storeinto_example =
    getfrom-storeinto ints patterns int32 int32_type 8 64 memory int32_accepted tt memory-IsBytes

int_storeinto_cases_example :
    (InRange 1 (negsuc 127)
      × HoldsSigned 1 64 (negsuc 127) memory (int_storeinto ints 1 (int (negsuc 127)) 64 memory))
    ⊎ (OutOfRange 1 (negsuc 127)
        × (int_storeinto ints 1 (int (negsuc 127)) 64 memory ≡ refused memory overflow_error))
int_storeinto_cases_example =
    int_storeinto_cases ints 1 (int (negsuc 127)) 64 memory (negsuc 127) (omega arith) refl

minus_one : (of_signed 2 (negsuc 0) ≡ 65535) × (to_signed 2 65535 ≡ negsuc 0)
unfolding of_signed to_signed
minus_one = (refl, refl)
