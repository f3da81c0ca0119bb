-- ===== src/BaseType/Types.antt =====
-- `ForeignBaseType_New` and `ForeignBaseType_IsChar` of foreign_basetype.c: which conversions a
-- base type gets, and which base types are refused. A conversion is a value of `GetFrom` or
-- `StoreInto`, for the function pointer that the source stores, with the width in its name.
use pycallocs.Prelude.{
  ℕ, ◌*◌, Bool, true, false, Option, none, some, ◌==◌, if◌then◌else◌, type_error, raised, Result,
  ok, err,
}
use pycallocs.Memory.{Mem}
use pycallocs.Python.{Python, Stored}
use pycallocs.BaseType
use pycallocs.BaseType.Floats
use pycallocs.BaseType.Floats.{Floats}

-- The DW_ATE_* constants of a base type's encoding; `unknown` is any other.
pub data Encoding : Type 0 where
  boolean : Encoding
  address : Encoding
  unsigned : Encoding
  signed : Encoding
  unsigned_char : Encoding
  signed_char : Encoding
  float : Encoding
  complex_float : Encoding
  unknown : Encoding

-- A `struct uniqtype` of kind BASE: un.base.enc, UNIQTYPE_SIZE_IN_BYTES and
-- UNIQTYPE_BASE_TYPE_BIT_SIZE.
pub record BaseUniqtype : Type 0 where
  pub enc : Encoding
  pub size : ℕ
  pub bit_size : ℕ

pub data GetFrom : Type 0 where
  get_bool : GetFrom
  get_uint : ℕ → GetFrom
  get_int : ℕ → GetFrom
  get_char : ℕ → GetFrom
  get_float : ℕ → GetFrom
  get_complex : ℕ → GetFrom

pub data StoreInto : Type 0 where
  store_bool : StoreInto
  store_uint : ℕ → StoreInto
  store_int : ℕ → StoreInto
  store_uchar : ℕ → StoreInto
  store_schar : ℕ → StoreInto
  store_float : ℕ → StoreInto
  store_complex : ℕ → StoreInto

-- The fields of the `ForeignTypeObject` that `ForeignBaseType_New` fills; the others are NULL.
pub record BaseForeignType : Type 0 where
  pub ft_type : BaseUniqtype
  pub ft_getfrom : GetFrom
  pub ft_copyfrom : GetFrom
  pub ft_storeinto : StoreInto

abbrev pub Conversions : Type 0
Conversions = GetFrom × StoreInto

-- The `CHECK_SIZE` lines of one case of the switch.
unfoldable pub check_sizes : ℕ → (ℕ → Conversions) → Option Conversions
check_sizes size f =
    if size == 1
    then some (f 1)
    else if size == 2
    then some (f 2)
    else if size == 4
    then some (f 4)
    else if size == 8
    then some (f 8)
    else none

unfoldable pub conversions_for : Encoding → ℕ → Option Conversions
unfolding check_sizes
conversions_for boolean size = some (get_bool, store_bool)
conversions_for address size = check_sizes size (λ w. (get_uint w, store_uint w))
conversions_for unsigned size = check_sizes size (λ w. (get_uint w, store_uint w))
conversions_for signed size = check_sizes size (λ w. (get_int w, store_int w))
conversions_for unsigned_char size = check_sizes size (λ w. (get_char w, store_uchar w))
conversions_for signed_char size = check_sizes size (λ w. (get_char w, store_schar w))
conversions_for float size =
    if size == 4
    then some (get_float 4, store_float 4)
    else if size == 8
    then some (get_float 8, store_float 8)
    else if size == 16
    then some (get_float 16, store_float 16)
    else none
conversions_for complex_float size =
    if size == 8
    then some (get_complex 8, store_complex 8)
    else if size == 16
    then some (get_complex 16, store_complex 16)
    else if size == 32
    then some (get_complex 32, store_complex 32)
    else none
conversions_for unknown size = none

-- Bit fields are refused, whatever their encoding.
unfoldable pub foreign_base_type : BaseUniqtype → Option Conversions → Result BaseForeignType
foreign_base_type t none = err type_error
foreign_base_type t (some (g, s)) =
    if t.bit_size == 8 * t.size
    then ok (record { ft_type = t; ft_getfrom = g; ft_copyfrom = g; ft_storeinto = s })
    else err type_error

-- The last test, PyErr_Occurred, also sees an exception that was set before the call.
unfoldable pub unless_pending : Bool → Result BaseForeignType → Result BaseForeignType
unless_pending false r = r
unless_pending true (ok f) = err raised
unless_pending true (err e) = err e

-- ForeignBaseType_New, by whether an exception is set when it is called
unfoldable pub foreign_base_type_called : Bool → BaseUniqtype → Result BaseForeignType
unfolding unless_pending foreign_base_type conversions_for
foreign_base_type_called pending t =
    unless_pending pending (foreign_base_type t (conversions_for t.enc t.size))

-- ForeignBaseType_New, called while no exception is set
unfoldable pub foreign_base_type_new : BaseUniqtype → Result BaseForeignType
unfolding foreign_base_type_called
foreign_base_type_new t = foreign_base_type_called false t

unfoldable pub is_char_encoding : Encoding → Bool
is_char_encoding unsigned_char = true
is_char_encoding signed_char = true
is_char_encoding _ = false

-- The calls through the function pointers.
module _ (py : Python) (fl : Floats py.Obj) where
  unfoldable pub getfrom : GetFrom → Mem → ℕ → py.Obj
  getfrom get_bool = BaseType.bool_getfrom py
  getfrom (get_uint w) = BaseType.uint_getfrom py w
  getfrom (get_int w) = BaseType.int_getfrom py w
  getfrom (get_char w) = BaseType.char_getfrom py w
  getfrom (get_float w) = Floats.float_getfrom py.Obj fl w
  getfrom (get_complex w) = Floats.complex_getfrom py.Obj fl w

  unfoldable pub storeinto : StoreInto → py.Obj → ℕ → Mem → Stored
  storeinto store_bool = BaseType.bool_storeinto py
  storeinto (store_uint w) = BaseType.uint_storeinto py w
  storeinto (store_int w) = BaseType.int_storeinto py w
  storeinto (store_uchar w) = BaseType.uchar_storeinto py w
  storeinto (store_schar w) = BaseType.schar_storeinto py w
  storeinto (store_float w) = Floats.float_storeinto py.Obj fl w
  storeinto (store_complex w) = Floats.complex_storeinto py.Obj fl w
