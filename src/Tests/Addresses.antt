-- ===== src/Tests/Addresses.antt =====
-- address_proxy.c at concrete inputs: arrays of `uint16_t`.
use pycallocs.Prelude.{
  ℕ, ◌≡◌, ◌≤◌, ◌<◌, ◌⊎◌, arith, some, List, [], ◌∷◌, ℤ, pos, negsuc, ok, value_error, length,
}
use pycallocs.Memory.{Mem}
use pycallocs.Python.{refused}
use pycallocs.Python.Ints.{PyInts, ints, int}
use pycallocs.BaseType.{uint_getfrom}
use pycallocs.BaseType.Types.{store_uint, storeinto}
use pycallocs.BaseType.Frames.{storeinto-IsContained}
use pycallocs.AddressProxy.{
  ItemType, integer, slice, both_there, Clip, addrproxy_subscript, init_values,
}
use pycallocs.AddressProxy.Items.{proxy, IntegerCases, addrproxy_subscript_cases}
use pycallocs.AddressProxy.Slices.{SliceCases, addrproxy_subscript-slice}
use pycallocs.AddressProxy.Fill.{IsFilled, IsHalted, init_values_cases}
use pycallocs.Tests.BaseTypes.{patterns}

-- The conversions of foreign_basetype.c make an item type.
abbrev uint16 : ItemType PyInts
uint16 = record {
  size = 2;
  getfrom = λ m a. ok (uint_getfrom ints 2 m a);
  storeinto = storeinto ints patterns (store_uint 2);
  contained = λ obj dest m. (storeinto-IsContained ints patterns (store_uint 2) obj dest m).same;
}

abbrev memory : Mem
memory q = 7

-- A clipping that keeps nothing.
abbrev empty_clip : Clip
empty_clip = record { start = λ n i j. 0; count = λ n i j. 0; in_range = λ n i j. omega arith }

addrproxy_subscript_cases_example :
    IntegerCases uint16 1024 3 memory
      (some (negsuc 0))
      (addrproxy_subscript uint16 empty_clip (proxy 1024 3) both_there (integer (negsuc 0)) memory)
addrproxy_subscript_cases_example =
    addrproxy_subscript_cases uint16 1024 3 memory empty_clip both_there (some (negsuc 0))

-- A clipping that keeps all.
abbrev full_count : ℤ → ℕ
full_count (pos n) = n
full_count (negsuc n) = 0

abbrev full_clip : Clip
full_clip = record {
  start = λ n i j. 0;
  count = λ n i j. full_count n;
  in_range = λ n i j. omega arith;
}

addrproxy_subscript-slice_example :
    SliceCases uint16 full_clip 1024 3 (pos 0) (pos 3) memory both_there (
      addrproxy_subscript uint16 full_clip
        (proxy 1024 3)
        both_there
        (slice (ok (pos 0, pos 3, pos 1)))
        memory)
addrproxy_subscript-slice_example =
    addrproxy_subscript-slice uint16 full_clip 1024 3 (pos 0) (pos 3) memory both_there

abbrev values : List PyInts
values = int (pos 300) ∷ int (pos 301) ∷ []

init_values_cases_example :
    let s = init_values uint16 (proxy 1024 3) values memory in
    ((3 < length values) × (s ≡ refused memory value_error))
    ⊎ ((length values ≤ 3)
        × (IsFilled uint16 1024 values 3 memory s ⊎ IsHalted uint16 1024 3 memory s))
init_values_cases_example =
    init_values_cases uint16 1024 values 3 memory (omega arith) (omega arith)
