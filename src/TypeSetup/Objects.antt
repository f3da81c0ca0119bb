-- ===== src/TypeSetup/Objects.antt =====
-- The foreign type objects themselves: `struct ForeignTypeObject` of foreign_library.h, with the
-- functions that ForeignType_New of foreign_type.c and the constructors that it calls put into it, and
-- the call of a foreign type. Allocations are taken to succeed.
use pycallocs.Prelude.{ℕ, zero, suc, Option, none, some, Result, ok, err, type_error}
use pycallocs.BaseType.Types.{
  BaseUniqtype, BaseForeignType, GetFrom, StoreInto, foreign_base_type_new,
}
use pycallocs.ForeignType.{
  Kind, void, base, composite, subprogram, address, array, enumeration, subrange,
}

-- A function pointer: not assigned, so that it is what PyObject_New left in the memory; NULL; or a
-- function.
pub data Slot {ℓ} (A : Type ℓ) : Type ℓ where
  unassigned : Slot A
  null_function : Slot A
  function : A → Slot A

-- What `ft_constructor` may be.
pub data Constructor : Type 0 where
  construct_composite : Constructor
  construct_array : Constructor
  construct_closure : Constructor

-- What `ft_getfrom` and `ft_copyfrom` may be.
pub data GetFunction : Type 0 where
  get_void : GetFunction
  base_getfrom : GetFrom → GetFunction
  proxy_getfrom : GetFunction
  proxy_copyfrom : GetFunction
  address_getfrom : GetFunction
  array_getfrom : GetFunction

-- What `ft_storeinto` may be.
pub data StoreFunction : Type 0 where
  store_void : StoreFunction
  base_storeinto : StoreInto → StoreFunction
  proxy_storeinto : StoreFunction
  address_storeinto : StoreFunction
  array_storeinto : StoreFunction

-- What `ft_getdataptr` may be.
pub data DataFunction : Type 0 where
  proxy_getdataptr : DataFunction
  address_getdataptr : DataFunction

-- What `ft_traverse` may be.
pub data TraverseFunction : Type 0 where
  traverse_ref : TraverseFunction
  traverse_composite : TraverseFunction
  traverse_array : TraverseFunction

-- The kind stands for `ft_type`; a proxy type is a number.
pub record ForeignTypeObject : Type 0 where
  pub ft_kind : Kind
  pub ft_proxy_type : Option ℕ
  pub ft_constructor : Slot Constructor
  pub ft_getfrom : GetFunction
  pub ft_copyfrom : Slot GetFunction
  pub ft_storeinto : StoreFunction
  pub ft_getdataptr : Slot DataFunction
  pub ft_traverse : Slot TraverseFunction

-- The case VOID of ForeignType_New
abbrev pub void_type : ForeignTypeObject
void_type = record {
  ft_kind = void;
  ft_proxy_type = none;
  ft_constructor = null_function;
  ft_getfrom = get_void;
  ft_copyfrom = function get_void;
  ft_storeinto = store_void;
  ft_getdataptr = unassigned;
  ft_traverse = unassigned;
}

-- ForeignBaseType_New, with the conversions chosen
unfoldable pub base_new_type : BaseUniqtype → Result BaseForeignType → Option ForeignTypeObject
base_new_type t (err e) = none
base_new_type t (ok b) = some (record {
  ft_kind = base t;
  ft_proxy_type = none;
  ft_constructor = null_function;
  ft_getfrom = base_getfrom b.ft_getfrom;
  ft_copyfrom = function (base_getfrom b.ft_copyfrom);
  ft_storeinto = base_storeinto b.ft_storeinto;
  ft_getdataptr = null_function;
  ft_traverse = null_function;
})

-- Proxy_NewType
unfoldable pub proxy_new_type : Kind → ℕ → ForeignTypeObject
proxy_new_type k proxytype = record {
  ft_kind = k;
  ft_proxy_type = some proxytype;
  ft_constructor = null_function;
  ft_getfrom = proxy_getfrom;
  ft_copyfrom = function proxy_copyfrom;
  ft_storeinto = proxy_storeinto;
  ft_getdataptr = function proxy_getdataptr;
  ft_traverse = null_function;
}

-- The end of CompositeProxy_NewType, with the new proxy type
unfoldable pub composite_object : Kind → ℕ → ForeignTypeObject
unfolding proxy_new_type
composite_object k htype = record (proxy_new_type k htype) {
  ft_constructor = function construct_composite;
  ft_traverse = function traverse_composite;
}

-- FunctionProxy_NewType, with the new proxy type
unfoldable pub function_object : Kind → ℕ → ForeignTypeObject
unfolding proxy_new_type
function_object k htype = record (proxy_new_type k htype) {
  ft_constructor = function construct_closure;
}

-- AddressProxy_NewType, with the new proxy type; a pointer to NULL is refused.
unfoldable pub address_object : ℕ → ℕ → Option ForeignTypeObject
address_object zero htype = none
address_object (suc pointee) htype = some (record {
  ft_kind = address (suc pointee);
  ft_proxy_type = some htype;
  ft_constructor = null_function;
  ft_getfrom = address_getfrom;
  ft_copyfrom = function address_getfrom;
  ft_storeinto = address_storeinto;
  ft_getdataptr = function address_getdataptr;
  ft_traverse = function traverse_ref;
})

-- ArrayProxy_NewType; the proxy type is filled in later.
unfoldable pub array_object : Kind → ForeignTypeObject
array_object k = record {
  ft_kind = k;
  ft_proxy_type = none;
  ft_constructor = function construct_array;
  ft_getfrom = array_getfrom;
  ft_copyfrom = null_function;
  ft_storeinto = array_storeinto;
  ft_getdataptr = null_function;
  ft_traverse = function traverse_array;
}

-- ForeignType_New, of a type that is not NULL, with the number of the new proxy type
unfoldable pub new_object : Kind → ℕ → Option ForeignTypeObject
unfolding base_new_type composite_object function_object address_object array_object
new_object void htype = some void_type
new_object (base t) htype = base_new_type t (foreign_base_type_new t)
new_object (composite ks) htype = some (composite_object (composite ks) htype)
new_object subprogram htype = some (function_object subprogram htype)
new_object (address k) htype = address_object k htype
new_object (array k) htype = some (array_object (array k))
new_object enumeration htype = none
new_object subrange htype = none

-- ArrayProxy_InitType, with the foreign type of addresses of the elements, if any
unfoldable pub array_init_type : ForeignTypeObject → Option ForeignTypeObject → ForeignTypeObject
array_init_type self none = self
array_init_type self (some addr) = record self { ft_proxy_type = addr.ft_proxy_type }

-- ForeignType_Init, as far as it changes the foreign type object
unfoldable pub init_object : ForeignTypeObject → Option ForeignTypeObject → Kind → ForeignTypeObject
unfolding array_init_type
init_object self addr (array k) = array_init_type self addr
init_object self addr void = self
init_object self addr (base t) = self
init_object self addr (composite ks) = self
init_object self addr subprogram = self
init_object self addr (address k) = self
init_object self addr enumeration = self
init_object self addr subrange = self

-- foreigntype_call, of a type whose slot is assigned; `run` calls the constructor.
unfoldable pub call_constructor {ℓ} :
    {A : Type ℓ} → (Constructor → Result A) → Slot Constructor → Option (Result A)
call_constructor run unassigned = none
call_constructor run null_function = some (err type_error)
call_constructor run (function c) = some (run c)

unfoldable pub foreigntype_call {ℓ} :
    {A : Type ℓ} → (Constructor → Result A) → ForeignTypeObject → Option (Result A)
unfolding call_constructor
foreigntype_call run self = call_constructor run self.ft_constructor
