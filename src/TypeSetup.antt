-- ===== src/TypeSetup.antt =====
-- The proxy types of composites and pointers, in the two phases that types which refer to each other
-- need: CompositeProxy_NewType and CompositeProxy_InitType of composite_proxy.c, AddressProxy_InitType
-- of address_proxy.c, and ForeignType_IsTriviallyCopiable of foreign_type.c. Allocations are taken to
-- succeed.
pub mod Safe
pub mod Fields
pub mod Objects
pub mod Contract
pub mod Typdict
pub mod Void
pub mod Counted
use Prim.Native.String.{String}
use pycallocs.Prelude.{
  ℕ, Bool, true, false, ◌&&◌, Option, none, some, List, [], ◌∷◌, ◌==◌, if◌then◌else◌,
}
use pycallocs.ForeignType.{
  Kind, void, base, composite, subprogram, address, array, enumeration, subrange,
}

-- A foreign type, as ForeignType_GetOrCreate gives it: the kind of its uniqtype, and its proxy type.
pub record Found : Type 0 where
  pub kind : Kind
  pub ft_proxy_type : ℕ

abbrev pub is_composite : Kind → Bool
is_composite (composite ks) = true
is_composite void = false
is_composite (base t) = false
is_composite subprogram = false
is_composite (address k) = false
is_composite (array k) = false
is_composite enumeration = false
is_composite subrange = false

unfoldable pub copiable_kind : Kind → Bool
copiable_kind (composite ks) = false
copiable_kind (array k) = false
copiable_kind subprogram = false
copiable_kind void = true
copiable_kind (base t) = true
copiable_kind (address k) = true
copiable_kind enumeration = true
copiable_kind subrange = true

-- ForeignType_IsTriviallyCopiable
unfoldable pub is_trivially_copiable : Found → Bool
unfolding copiable_kind
is_trivially_copiable t = copiable_kind t.kind

-- A member of a composite uniqtype: its type and offset.
pub record Member : Type 0 where
  pub type : ℕ
  pub offset : ℕ

pub data Getter : Type 0 where
  getinvalidfield : Getter
  getfield : Getter

-- A getset entry with its `struct field_info`; `type` is none for NULL or as long as it is not set.
pub record Getset : Type 0 where
  pub name : String
  pub get : Getter
  pub has_set : Bool
  pub type : Option Found
  pub offset : ℕ

pub record CompositeType : Type 0 where
  pub tp_getset : List Getset
  pub tp_base : ℕ

-- As long as the field's type is not known, its getter raises.
abbrev pub new_getset : String → Getset
new_getset n = record { name = n; get = getinvalidfield; has_set = false; type = none; offset = 0 }

-- The entries of CompositeProxy_NewType: none for a composite without field names.
unfoldable pub new_getsets : Option (List String) → List Getset
new_getsets none = []
new_getsets (some []) = []
new_getsets (some (n ∷ ns)) = new_getset n ∷ new_getsets (some ns)

-- CompositeProxy_NewType, with the number of `allocs.Proxy`
unfoldable pub composite_new_type : ℕ → Option (List String) → CompositeType
unfolding new_getsets
composite_new_type proxy names = record { tp_getset = new_getsets names; tp_base = proxy }

unfoldable pub init_field : Getset → Member → Option Found → Getset
unfolding is_trivially_copiable
init_field g mb none = record g { type = none; offset = mb.offset }
init_field g mb (some t) = record g {
  type = some t;
  offset = mb.offset;
  get = getfield;
  has_set = if is_trivially_copiable t then true else g.has_set;
}

-- The first-element idiom
unfoldable pub base_after : ℕ → Member → Option Found → ℕ
base_after tp_base mb none = tp_base
base_after tp_base mb (some t) =
    if mb.offset == 0 && is_composite t.kind then t.ft_proxy_type else tp_base

-- The loop of CompositeProxy_InitType; `get` is ForeignType_GetOrCreate.
module _ (get : ℕ → Option Found) where
  unfoldable pub init_getsets : List Getset → List Member → List Getset
  unfolding init_field
  init_getsets [] mbs = []
  init_getsets (g ∷ gs) [] = g ∷ gs
  init_getsets (g ∷ gs) (mb ∷ mbs) = init_field g mb (get mb.type) ∷ init_getsets gs mbs

  unfoldable pub init_base : ℕ → List Getset → List Member → ℕ
  unfolding base_after
  init_base tp_base [] mbs = tp_base
  init_base tp_base (g ∷ gs) [] = tp_base
  init_base tp_base (g ∷ gs) (mb ∷ mbs) = init_base (base_after tp_base mb (get mb.type)) gs mbs

  -- CompositeProxy_InitType
  unfoldable pub composite_init_type : List Member → CompositeType → CompositeType
  unfolding init_getsets init_base
  composite_init_type mbs c = record {
    tp_getset = init_getsets c.tp_getset mbs;
    tp_base = init_base c.tp_base c.tp_getset mbs;
  }

-- The item methods of an address proxy: none, or those of an array whose items can be assigned, or
-- of one whose items cannot.
pub data SequenceMethods : Type 0 where
  no_methods : SequenceMethods
  assignable : SequenceMethods
  read_only : SequenceMethods

pub record AddressType : Type 0 where
  pub pointee_type : Option Found
  pub tp_base : ℕ
  pub tp_as_sequence : SequenceMethods

unfoldable pub pointee_methods : Found → SequenceMethods
unfolding is_trivially_copiable
pointee_methods t = if is_trivially_copiable t then assignable else read_only

-- AddressProxy_InitType, with the number of `allocs.Proxy` and the pointee's foreign type, if any
unfoldable pub address_init_type : ℕ → Option Found → AddressType
unfolding pointee_methods
address_init_type proxy none = record {
  pointee_type = none;
  tp_base = proxy;
  tp_as_sequence = no_methods;
}
address_init_type proxy (some t) = record {
  pointee_type = some t;
  tp_base = if is_composite t.kind then t.ft_proxy_type else proxy;
  tp_as_sequence = pointee_methods t;
}
