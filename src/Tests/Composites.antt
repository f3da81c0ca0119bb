-- ===== src/Tests/Composites.antt =====
-- composite_proxy.c at concrete inputs: a struct of a `uint16_t` and, four bytes on, a `uint32_t`.
use pycallocs.Prelude.{ℕ, ◌≡◌, ◌≢◌, ◌⊎◌, arith, none, some, [], ◌∷◌, pos, ok}
use pycallocs.Memory.{Mem}
use pycallocs.Memory.Frame.{SameOutside}
use pycallocs.Python.{Stored}
use pycallocs.Python.Ints.{PyInts, ints, int}
use pycallocs.BaseType.{uint_getfrom}
use pycallocs.BaseType.Types.{store_uint, storeinto}
use pycallocs.BaseType.Frames.{storeinto-IsContained}
use pycallocs.CompositeProxy.{
  FieldType, Dict, Objects, CompositeProxy, tuple, no_keywords, compositeproxy_init,
}
use pycallocs.CompositeProxy.Fields.{FieldsHold}
use pycallocs.CompositeProxy.Init.{compositeproxy_init_cases}
use pycallocs.CompositeProxy.Contained.{Keeps, compositeproxy_init-Keeps}
use pycallocs.Proxy.{proxy_store_into, composite_type}
use pycallocs.Proxy.Store.{StoreCases, proxy_store_into_cases}
use pycallocs.Tests.BaseTypes.{patterns}

abbrev uint : ℕ → FieldType PyInts
uint w = record {
  size = w;
  getfrom = λ m a. ok (uint_getfrom ints w m a);
  storeinto = storeinto ints patterns (store_uint w);
  contained = λ obj dest m. (storeinto-IsContained ints patterns (store_uint w) obj dest m).same;
}

abbrev two_fields : CompositeProxy PyInts
two_fields = record {
  p_ptr = 1024;
  tp_itemsize = 8;
  fields =
      record { name = "a"; type = some (uint 2); offset = 0 }
      ∷ record { name = "b"; type = some (uint 4); offset = 4 }
      ∷ [];
}

abbrev memory : Mem
memory q = 7

-- Every object is the tuple (49, 3).
abbrev tuples : Objects PyInts
tuples = record {
  same_type = λ o. none;
  as_dict = λ o. none;
  as_tuple = λ o. some (int (pos 49) ∷ int (pos 3) ∷ []);
  get_attr = λ o name. none;
}

-- Every object is a dictionary of one entry, the same for each key.
abbrev one_entry : Dict PyInts
one_entry = record { size = 1; get = λ name. some (int (pos 5)) }

abbrev dicts : Objects PyInts
dicts = record {
  same_type = λ o. none;
  as_dict = λ o. some one_entry;
  as_tuple = λ o. none;
  get_attr = λ o name. none;
}

compositeproxy_init_cases_example :
    (s : Stored) × (compositeproxy_init dicts two_fields
        (tuple (int (pos 3) ∷ int (pos 4) ∷ []))
        none
        memory
      ≡ some s)
    × (((s.status ≡ none)
          × FieldsHold 1024
              (int (pos 3) ∷ int (pos 4) ∷ [])
              no_keywords
              two_fields.fields
              0
              s.mem
              memory)
        ⊎ (s.status ≢ none))
    × SameOutside 1024 8 memory s.mem
compositeproxy_init_cases_example =
    compositeproxy_init_cases dicts two_fields (int (pos 3)) (int (pos 4)) [] memory
      (omega arith, (omega arith, omega arith))

compositeproxy_init-Keeps_example :
    Keeps 1024 8 memory
      (compositeproxy_init dicts two_fields (tuple (int (pos 3) ∷ [])) none memory)
compositeproxy_init-Keeps_example =
    compositeproxy_init-Keeps two_fields (omega arith, (omega arith, omega arith)) dicts
      (tuple (int (pos 3) ∷ [])) none memory

proxy_store_into_cases_example :
    StoreCases tuples two_fields 4096 2048
      (int (pos 3))
      memory
      (proxy_store_into (composite_type tuples two_fields 4096) (int (pos 3)) 2048 memory)
proxy_store_into_cases_example =
    proxy_store_into_cases tuples two_fields 4096 2048 (int (pos 3)) memory
      (omega arith, (omega arith, omega arith))
