-- ===== src/Tests/Functions.antt =====
-- function_proxy.c at concrete types: `struct { int a; float b; }`, and functions on it.
use pycallocs.Prelude.{Result, import_error, ◌≡◌, refl, true, none, some, [], ◌∷◌}
use pycallocs.BaseType.Types.{
  BaseUniqtype, BaseForeignType, signed, float, get_int, store_int, foreign_base_type_new,
}
use pycallocs.Ffi.{
  CType, base, void, composite, end, member, FfiType, scalar, struct, Libffi, ffi_type_for, element,
  stop, ffi_sint, ffi_float,
}
use pycallocs.FunctionType.{Usage, Runtime, FunctionType, setup}
use pycallocs.FunctionType.Life.{whole_life}
use pycallocs.FunctionType.Life.Ends.{whole_life-IsBalanced}

abbrev int32 : BaseUniqtype
int32 = record { enc = signed; size = 4; bit_size = 32 }

abbrev float32 : BaseUniqtype
float32 = record { enc = float; size = 4; bit_size = 32 }

abbrev int32_type : BaseForeignType
int32_type = record {
  ft_type = int32;
  ft_getfrom = get_int 4;
  ft_copyfrom = get_int 4;
  ft_storeinto = store_int 4;
}

abbrev pair : CType
pair = composite 8 (member (base int32) (member (base float32) end))

-- A libffi that lays every struct out in 8 bytes.
abbrev platform : Libffi
platform = record { has_complex = true; prep_struct = λ es. some (8, 4); scalar_alignment = λ s. 4 }

int32_accepted : foreign_base_type_new int32 ≡ Result.ok int32_type
unfolding foreign_base_type_new
int32_accepted = refl

abbrev pair_struct : FfiType
pair_struct = struct 8 4 (element (scalar (ffi_sint 4)) (element (scalar (ffi_float 4)) stop))

pair_built : (ffi_type_for platform pair 0).result ≡ some pair_struct
unfolding ffi_type_for
pair_built = refl

abbrev runtime : Runtime
runtime = record { lib = platform; get_or_create = λ t. none; prep_cif = λ ret args. true }

abbrev on_pair : FunctionType
on_pair = record {
  ff_type = record { nret = 1; ret_type = base int32; arg_types = pair ∷ [] };
  ff_cif = none;
  ff_argtypes = none;
}

abbrev usage : Usage
usage = record { live = 5; refs = 2 }

setup_succeeds : (setup runtime on_pair usage).status ≡ none
unfolding setup ffi_type_for
setup_succeeds = refl

abbrev nullary : FunctionType
nullary = record {
  ff_type = record { nret = 1; ret_type = void; arg_types = [] };
  ff_cif = none;
  ff_argtypes = none;
}

nullary_set_up : (setup runtime nullary usage).status ≡ none
unfolding setup ffi_type_for
nullary_set_up = refl

-- A first set-up finds no foreign type for the argument; the second one succeeds.
whole_life-IsBalanced_example :
    whole_life on_pair.ff_type
      (record { proxy_type = true; closure_type = true })
      (record runtime { get_or_create = λ t. some import_error } ∷ runtime ∷ [])
      (record { usage = record { live = 3; refs = 4 }; types = 5 })
    ≡ some (record { usage = record { live = 3; refs = 4 }; types = 5 })
whole_life-IsBalanced_example =
    whole_life-IsBalanced on_pair.ff_type (record { proxy_type = true; closure_type = true })
      (record runtime { get_or_create = λ t. some import_error } ∷ runtime ∷ [])
      (record { usage = record { live = 3; refs = 4 }; types = 5 }) tt
