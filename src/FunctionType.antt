-- ===== src/FunctionType.antt =====
-- function_proxy.c: what a foreign function's type keeps for its calls (`funproxytype_setup`,
-- `funproxytype_dealloc`). `Usage` counts the blocks of `PyMem_Malloc` and the references to
-- foreign types in use. `ForeignType_GetOrCreate` is a parameter here, which either returns a new
-- reference or NULL with an exception set; `prep_cif` is libffi's `ffi_prep_cif`.
pub mod Balance
pub mod NoArguments
pub mod Life
use pycallocs.Prelude.{
  ℕ, zero, suc, ◌+◌, ◌-◌, Bool, true, false, not, Option, none, some, List, [], ◌∷◌, Error,
  import_error, ◌==◌, if◌then◌else◌, length,
}
use pycallocs.Ffi.{
  CType, FfiType, Elements, stop, element, Libffi, Built, ffi_type_for, free_ffi_type,
  free_ffi_type_arr,
}

pub record Usage : Type 0 where
  pub live : ℕ
  pub refs : ℕ

pub record Runtime : Type 0 where
  pub lib : Libffi
  -- the exception that ForeignType_GetOrCreate sets if it returns NULL
  pub get_or_create : CType → Option Error
  pub prep_cif : FfiType → Option Elements → Bool

-- The uniqtype of a function: how many results it has, the first result, the arguments.
pub record Subprogram : Type 0 where
  pub nret : ℕ
  pub ret_type : CType
  pub arg_types : List CType

-- `ff_cif` holds the result's descriptor and the argument array (NULL with no arguments).
-- `ff_argtypes` is `none` while the field has not been assigned, else the number of types.
pub record FunctionType : Type 0 where
  pub ff_type : Subprogram
  pub ff_cif : Option (FfiType × Option Elements)
  pub ff_argtypes : Option ℕ

-- The loop over the arguments: the descriptors and the count of types up to the first NULL.
pub record ArgTypes : Type 0 where
  pub descriptors : Elements
  pub types : ℕ
  pub failure : Option Error
  pub usage : Usage

-- What setup returns: the type, the exception behind -1, and the usage.
pub record Setup : Type 0 where
  pub self : FunctionType
  pub status : Option Error
  pub usage : Usage

abbrev pub add_ref : Usage → Usage
add_ref u = record u { refs = u.refs + 1 }

-- `new_type` is the exception of ForeignType_GetOrCreate for the argument. That of a missing
-- descriptor is set last.
unfoldable pub add_argument : Option FfiType → Option Error → Usage → (Usage → ArgTypes) → ArgTypes
add_argument none none u rest = record {
  descriptors = stop;
  types = 1;
  failure = some import_error;
  usage = add_ref u;
}
add_argument none (some e) u rest = record {
  descriptors = stop;
  types = 0;
  failure = some import_error;
  usage = u;
}
add_argument (some d) (some e) u rest = record {
  descriptors = element d stop;
  types = 0;
  failure = some e;
  usage = u;
}
add_argument (some d) none u rest =
    let r = rest (add_ref u) in
    record {
      descriptors = element d r.descriptors;
      types = suc r.types;
      failure = r.failure;
      usage = r.usage;
    }

module _ (rt : Runtime) where
  unfoldable pub argument_types : List CType → Usage → ArgTypes
  unfolding add_argument
  argument_types [] u = record { descriptors = stop; types = 0; failure = none; usage = u }
  argument_types (t ∷ ts) u =
      let b = ffi_type_for rt.lib t u.live in
      add_argument b.result (rt.get_or_create t) (record u { live = b.live }) (argument_types ts)

  -- The label err_argtype: the types and the two arrays, if there are arguments, then the result's
  -- descriptor and its type.
  unfoldable pub release : List CType → FfiType → ArgTypes → Usage
  release [] ret a = record { live = free_ffi_type ret a.usage.live; refs = a.usage.refs - 1 }
  release (t ∷ ts) ret a = record {
    live = free_ffi_type ret (free_ffi_type_arr a.descriptors (a.usage.live - 1));
    refs = a.usage.refs - a.types - 1;
  }

  -- The arrays are allocated for at least one argument.
  unfoldable pub argument_blocks : List CType → ℕ
  argument_blocks [] = 0
  argument_blocks (t ∷ ts) = 2

  abbrev pub descriptor_array : List CType → Elements → Option Elements
  descriptor_array [] es = none
  descriptor_array (t ∷ ts) es = some es

  abbrev pub type_array : List CType → ℕ → Option ℕ → Option ℕ
  type_array [] n old = old
  type_array (t ∷ ts) n old = some n

  unfoldable pub prepare : FunctionType → FfiType → ArgTypes → Setup
  unfolding release
  prepare self ret a =
      let args = self.ff_type.arg_types in
      let array = descriptor_array args a.descriptors in
      let self' = record self { ff_argtypes = type_array args a.types self.ff_argtypes } in
      if rt.prep_cif ret array
      then record {
        self = record self' { ff_cif = some (ret, array) };
        status = none;
        usage = record { live = a.usage.live + 1; refs = a.usage.refs };
      }
      else record { self = self'; status = some import_error; usage = release args ret a }

  unfoldable pub finish_setup : FunctionType → FfiType → ArgTypes → Option Error → Setup
  unfolding prepare
  finish_setup self ret a none = prepare self ret a
  finish_setup self ret a (some e) = record {
    self = record self { ff_argtypes = type_array self.ff_type.arg_types a.types self.ff_argtypes };
    status = some e;
    usage = release self.ff_type.arg_types ret a;
  }

  -- With the result's type created and its descriptor, or NULL, built.
  unfoldable pub setup_arguments : FunctionType → Option FfiType → Usage → Setup
  unfolding finish_setup argument_types argument_blocks
  setup_arguments self none u = record {
    self = self;
    status = some import_error;
    usage = record u { refs = u.refs - 1 };
  }
  setup_arguments self (some ret) u =
      let args = self.ff_type.arg_types in
      let a = argument_types args (record u { live = u.live + argument_blocks args }) in
      finish_setup self ret a a.failure

  unfoldable pub setup_result : FunctionType → Usage → Option Error → Setup
  unfolding setup_arguments
  setup_result self u (some e) = record { self = self; status = some e; usage = u }
  setup_result self u none =
      let b = ffi_type_for rt.lib self.ff_type.ret_type u.live in
      setup_arguments self b.result (record { live = b.live; refs = u.refs + 1 })

  unfoldable pub setup_new : FunctionType → Usage → Setup
  unfolding setup_result
  setup_new self u =
      if self.ff_type.nret == 1
      then setup_result self u (rt.get_or_create self.ff_type.ret_type)
      else record { self = self; status = some import_error; usage = u }

  unfoldable pub setup_once : FunctionType → Usage → Option (FfiType × Option Elements) → Setup
  unfolding setup_new
  setup_once self u (some cif) = record { self = self; status = none; usage = u }
  setup_once self u none = setup_new self u

  -- funproxytype_setup
  unfoldable pub setup : FunctionType → Usage → Setup
  unfolding setup_once
  setup self u = setup_once self u self.ff_cif

-- The blocks of an argument array; NULL has none.
unfoldable pub free_argument_array : Option Elements → ℕ → ℕ
free_argument_array none live = live
free_argument_array (some es) live = free_ffi_type_arr es live

-- funproxytype_dealloc, of what setup made. `none`: `ff_argtypes` is read before it is assigned.
unfoldable pub dealloc_cif : Option (FfiType × Option Elements) → Option ℕ → Usage → Option Usage
unfolding free_argument_array
dealloc_cif none types u = some u
dealloc_cif (some (ret, array)) none u = none
dealloc_cif (some (ret, array)) (some n) u = some (record {
  live = free_argument_array array (free_ffi_type ret u.live) - 1 - 1;
  refs = u.refs - n - 1;
})

unfoldable pub dealloc : FunctionType → Usage → Option Usage
unfolding dealloc_cif
dealloc self u = dealloc_cif self.ff_cif self.ff_argtypes u
