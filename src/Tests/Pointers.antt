-- ===== src/Tests/Pointers.antt =====
-- Pointers of address_proxy.c at concrete inputs: type 7 is a struct, type 8 the pointer to it, and 0
-- is `allocs.Proxy`; the object 1 is a proxy of the struct at 4096.
use pycallocs.Prelude.{
  ℕ, ◌≡◌, refl, ◌⊎◌, arith, true, false, ◌||◌, ◌==◌, Option, none, some, pos, type_error,
}
use pycallocs.Memory.{Mem, load, store}
use pycallocs.Python.{refused}
use pycallocs.AddressProxy.Pointers.{
  Types, Value, instance_of, PointerType, IsHierarchy, addrproxy_storeinto, addrproxy_getdataptr,
  addrproxy_typecheck, store_pointer, PointerStored, IsStored, Crashes, store_checked,
  check_pointee, is_pointee, is_one, addrproxy_storeinto_cases,
}
use pycallocs.Registry.{Allocation}
use pycallocs.Registry.Pointers.{
  Decodes, addrproxy_getfrom, addrproxy_getfrom-Decodes, addrproxy_getfrom-storeinto,
}
use pycallocs.Registry.Steps.{empty, empty-IsSound}
use pycallocs.Tests.Proxies.{new, fresh, no_pointers, struct}

abbrev types : Types
types = record { is_subtype = λ a b. a == b || b == 0; is_address = λ t. t == 8; proxy_type = 0 }

abbrev struct_pointer : PointerType
struct_pointer = record {
  ft_proxy_type = 8;
  has_pointee = true;
  pointee_proxy = some 7;
  is_void = false;
}

abbrev proxy_of_struct : Value
proxy_of_struct = instance_of (record { object = 1; type = 7; p_ptr = 4096; ap_length = pos 0 })

abbrev memory : Mem
memory q = 7

subtype_trans :
    (a b c : ℕ) → (a == b || b == 0) ≡ true → (b == c || c == 0) ≡ true → (a == c || c == 0) ≡ true
subtype_trans a b c left right = ground arith

hierarchy : IsHierarchy types struct_pointer
hierarchy = record { trans = subtype_trans; own = refl; pointee = λ t eq. ground arith }

addrproxy_storeinto_cases_example :
    IsStored types proxy_of_struct 64 struct_pointer memory
    ⊎ ((addrproxy_getdataptr types proxy_of_struct struct_pointer ≡ some none)
        × (addrproxy_storeinto types proxy_of_struct 64 struct_pointer memory
            ≡ some (record { result = refused memory type_error; notified = none })))
    ⊎ ((addrproxy_getdataptr types proxy_of_struct struct_pointer ≡ none)
        × (addrproxy_storeinto types proxy_of_struct 64 struct_pointer memory ≡ none)
        × Crashes types proxy_of_struct struct_pointer)
addrproxy_storeinto_cases_example =
    addrproxy_storeinto_cases types proxy_of_struct 64 struct_pointer memory hierarchy (omega arith)

-- Every address is in the struct.
abbrev everywhere : ℕ → Option Allocation
everywhere a = struct

addrproxy_getfrom-Decodes_example :
    let m = store 8 memory 64 4096 in
    Decodes types new struct_pointer
      (load 8 m 64)
      empty.owned
      struct
      empty.registry
      (addrproxy_getfrom types new no_pointers struct_pointer 64 everywhere m empty.registry)
addrproxy_getfrom-Decodes_example =
    addrproxy_getfrom-Decodes types new fresh no_pointers struct_pointer everywhere empty.owned
      empty.registry 64 (store 8 memory 64 4096) empty-IsSound

abbrev stored_struct : PointerStored
stored_struct = store_pointer 64 4096 memory

stored_pointer :
    addrproxy_storeinto types proxy_of_struct 64 struct_pointer memory ≡ some stored_struct
unfolding addrproxy_storeinto addrproxy_typecheck store_checked check_pointee is_pointee is_one
stored_pointer = refl

was_stored : stored_struct.result.status ≡ none
unfolding store_pointer
was_stored = refl

addrproxy_getfrom-storeinto_example :
    Decodes types new struct_pointer 4096 empty.owned struct empty.registry (
      addrproxy_getfrom types new no_pointers struct_pointer 64 everywhere stored_struct.result.mem
        empty.registry)
addrproxy_getfrom-storeinto_example =
    addrproxy_getfrom-storeinto types new fresh no_pointers struct_pointer everywhere empty.owned
      empty.registry proxy_of_struct 64 memory stored_struct hierarchy (omega arith) stored_pointer
      was_stored empty-IsSound
