-- ===== src/Ffi.antt =====
-- function_proxy.c: the libffi type of a C type (`ffi_type_for_uniqtype`, `free_ffi_type`), with
-- the blocks that `PyMem_Malloc` hands out counted. A type is the tree that the function walks: it
-- never looks behind a pointer. What `ffi_prep_cif` computes for a struct is a parameter.
pub mod Blocks
pub mod Sizes
use pycallocs.Prelude.{ℕ, ◌+◌, ◌-◌, Bool, true, false, Option, none, some, ltb, ◌==◌, if◌then◌else◌}
use pycallocs.BaseType.Types.{
  BaseUniqtype, Encoding, boolean, address, unsigned, signed, unsigned_char, signed_char, float,
  complex_float, unknown,
}

mutual
  -- The kinds of a uniqtype. The composite has its size; ARRAY, ADDRESS and SUBPROGRAM are one.
  pub data CType : Type 0 where
    void : CType
    pointer : CType
    enumeration : Option BaseUniqtype → CType
    base : BaseUniqtype → CType
    composite : ℕ → Members → CType
    subrange : CType

  pub data Members : Type 0 where
    end : Members
    member : CType → Members → Members

pub data Scalar : Type 0 where
  ffi_void : Scalar
  ffi_pointer : Scalar
  ffi_uint : ℕ → Scalar
  ffi_sint : ℕ → Scalar
  ffi_float : ℕ → Scalar
  ffi_complex : ℕ → Scalar

mutual
  -- A static descriptor of libffi, or a struct descriptor with its size and alignment.
  pub data FfiType : Type 0 where
    scalar : Scalar → FfiType
    struct : ℕ → ℕ → Elements → FfiType

  -- The NULL-terminated array of a struct's element types.
  pub data Elements : Type 0 where
    stop : Elements
    element : FfiType → Elements → Elements

unfoldable pub ffi_int : (ℕ → Scalar) → ℕ → Option FfiType
ffi_int f size =
    if size == 1
    then some (scalar (f 1))
    else if size == 2
    then some (scalar (f 2))
    else if size == 4
    then some (scalar (f 4))
    else if size == 8
    then some (scalar (f 8))
    else none

unfoldable pub ffi_float_type : (ℕ → Scalar) → ℕ → ℕ → ℕ → ℕ → Option FfiType
ffi_float_type f a b c size =
    if size == a
    then some (scalar (f a))
    else if size == b
    then some (scalar (f b))
    else if size == c
    then some (scalar (f c))
    else none

-- `has_complex` is FFI_TARGET_HAS_COMPLEX_TYPE.
unfoldable pub ffi_base : Bool → Encoding → ℕ → Option FfiType
unfolding ffi_int ffi_float_type
ffi_base has_complex boolean size = some (scalar (ffi_uint 1))
ffi_base has_complex address size = ffi_int ffi_uint size
ffi_base has_complex unsigned size = ffi_int ffi_uint size
ffi_base has_complex unsigned_char size = ffi_int ffi_uint size
ffi_base has_complex signed size = ffi_int ffi_sint size
ffi_base has_complex signed_char size = ffi_int ffi_sint size
ffi_base has_complex float size = ffi_float_type ffi_float 4 8 16 size
ffi_base has_complex complex_float size =
    if has_complex then ffi_float_type ffi_complex 8 16 32 size else none
ffi_base has_complex unknown size = none

unfoldable pub ffi_enumeration : Bool → Option BaseUniqtype → Option FfiType
unfolding ffi_base
ffi_enumeration has_complex none = none
ffi_enumeration has_complex (some b) = ffi_base has_complex b.enc b.size

-- `free_ffi_type` and `free_ffi_type_arr`, on the number of blocks in use.
unfoldable mutual
  pub free_ffi_type : FfiType → ℕ → ℕ
  free_ffi_type (scalar s) live = live
  free_ffi_type (struct size align es) live = free_elements es live - 1 - 1

  -- The elements of an array, without the array's own block.
  pub free_elements : Elements → ℕ → ℕ
  free_elements stop live = live
  free_elements (element e es) live = free_elements es (free_ffi_type e live)

unfoldable pub free_ffi_type_arr : Elements → ℕ → ℕ
unfolding free_ffi_type free_elements
free_ffi_type_arr es live = free_elements es live - 1

-- The platform's libffi: `ffi_prep_cif` fills in a struct's size and alignment, or fails;
-- `scalar_alignment` is the alignment of the static descriptors.
pub record Libffi : Type 0 where
  pub has_complex : Bool
  pub prep_struct : Elements → Option (ℕ × ℕ)
  pub scalar_alignment : Scalar → ℕ

-- What building a type returns: the type or NULL, and the blocks then in use.
pub record Built (A : Type 0) : Type 0 where
  pub result : A
  pub live : ℕ

-- The loop over the fields: the elements built and whether all were.
abbrev pub BuiltElements : Type 0
BuiltElements = Built (Elements × Bool)

module _ (lib : Libffi) where
  unfoldable pub alignment : FfiType → ℕ
  alignment (scalar s) = lib.scalar_alignment s
  alignment (struct size align es) = align

  -- The loop that raises a patched struct's alignment to that of its elements.
  unfoldable pub raise_alignment : Elements → ℕ → ℕ
  unfolding alignment
  raise_alignment stop align = align
  raise_alignment (element e es) align =
      raise_alignment es (if ltb align (alignment e) then alignment e else align)

  -- A size other than the type's (a union) is patched.
  unfoldable pub patch_struct : ℕ → Elements → ℕ × ℕ → FfiType
  unfolding raise_alignment
  patch_struct size es (s, align) =
      if s == size then struct s align es else struct size (raise_alignment es align) es

  -- After the loop over the fields; `live` counts the array of elements already.
  unfoldable pub finish_struct : ℕ → BuiltElements → Option (ℕ × ℕ) → Built (Option FfiType)
  unfolding free_ffi_type_arr patch_struct
  finish_struct size b none = record {
    result = none;
    live =
        if b.result.1
        then free_ffi_type (struct 0 0 b.result.0) (b.live + 1)
        else free_ffi_type_arr b.result.0 b.live;
  }
  finish_struct size b (some layout) =
      if b.result.1
      then record { result = some (patch_struct size b.result.0 layout); live = b.live + 1 }
      else record { result = none; live = free_ffi_type_arr b.result.0 b.live }

  -- One field of the loop: a NULL ends it.
  unfoldable pub add_element : Option FfiType → ℕ → (ℕ → BuiltElements) → BuiltElements
  add_element none live rest = record { result = (stop, false); live = live }
  add_element (some e) live rest =
      let r = rest live in record { result = (element e r.result.0, r.result.1); live = r.live }

  unfoldable mutual
    unfolding ffi_base ffi_enumeration finish_struct add_element

    pub ffi_type_for : CType → ℕ → Built (Option FfiType)
    ffi_type_for void live = record { result = some (scalar ffi_void); live = live }
    ffi_type_for pointer live = record { result = some (scalar ffi_pointer); live = live }
    ffi_type_for (enumeration b) live = record {
      result = ffi_enumeration lib.has_complex b;
      live = live;
    }
    ffi_type_for (base b) live = record {
      result = ffi_base lib.has_complex b.enc b.size;
      live = live;
    }
    ffi_type_for (composite size ms) live =
        let b = ffi_members ms (live + 1) in finish_struct size b (lib.prep_struct b.result.0)
    ffi_type_for subrange live = record { result = none; live = live }

    pub ffi_members : Members → ℕ → BuiltElements
    ffi_members end live = record { result = (stop, true); live = live }
    ffi_members (member t ms) live =
        let b = ffi_type_for t live in add_element b.result b.live (ffi_members ms)
