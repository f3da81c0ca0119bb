-- ===== src/Tests/Lengths.antt =====
-- A fresh address proxy of address_proxy.c: `uint32_t a[4]` in an allocation of 16 bytes at 4096.
use pycallocs.Prelude.{◌≡◌, inl, refl, arith, true, false, none, some, [], ◌∷◌, pos, ok}
use pycallocs.Memory.{Mem}
use pycallocs.Memory.Frame.{SameOutside}
use pycallocs.Python.Ints.{PyInts, ints, int}
use pycallocs.BaseType.{uint_getfrom}
use pycallocs.BaseType.Types.{store_uint, storeinto}
use pycallocs.BaseType.Frames.{storeinto-IsContained}
use pycallocs.Bounds.{
  Visit, AllocInfo, fetch_bounds, initial_arg, search, bounds_cb, make_bounds, array_bounds,
}
use pycallocs.AddressProxy.{ItemType, addrproxy_ass_item}
use pycallocs.AddressProxy.Items.{proxy}
use pycallocs.AddressProxy.Length.{Pointee, addrproxy_initlength, length_from_bounds}
use pycallocs.AddressProxy.InBounds.{addrproxy_initlength-InBounds}
use pycallocs.Tests.BaseTypes.{patterns}

abbrev pub uint32 : ItemType PyInts
uint32 = record {
  size = 4;
  getfrom = λ m a. ok (uint_getfrom ints 4 m a);
  storeinto = storeinto ints patterns (store_uint 4);
  contained = λ obj dest m. (storeinto-IsContained ints patterns (store_uint 4) obj dest m).same;
}

abbrev pub word : Pointee
word = record {
  size = 4;
  known_length = true;
  uniq = record { pos_maxoff = 4; array = none; is_char = false };
}

abbrev pub first : Visit
first = record {
  u = word.uniq;
  container = some (record { length = 4; known_length = true; elem_maxoff = 4 });
  offset_within = 0;
  offset = 0;
}

abbrev pub block : AllocInfo
block = record { failed = false; alloc_start = 4096; alloc_size_bytes = 16 }

abbrev memory : Mem
memory q = 7

four_items : addrproxy_initlength 4096 word block (first ∷ []) ≡ proxy 4096 4
unfolding addrproxy_initlength length_from_bounds fetch_bounds search bounds_cb initial_arg
    make_bounds array_bounds
four_items = refl

addrproxy_initlength-InBounds_example :
    let b = fetch_bounds 4096 word.uniq block (first ∷ []) in
    SameOutside b.base b.size memory
      (addrproxy_ass_item uint32
        (addrproxy_initlength 4096 word block (first ∷ []))
        (pos 3)
        (int (pos 300))
        memory).mem
addrproxy_initlength-InBounds_example =
    addrproxy_initlength-InBounds uint32 4096 word block (first ∷ []) refl refl (omega arith) refl
      (λ e. omega arith) refl refl (omega arith) (omega arith) (omega arith) (omega arith)
      (
        record {
          within = omega arith;
          offset_lt = omega arith;
          in_array = (refl, (λ e. omega arith), (λ e. cc));
        },
        tt,
      )
      (omega arith, tt) (inl (refl, refl)) 3 (int (pos 300)) memory
