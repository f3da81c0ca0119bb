-- ===== src/LibraryLoader.antt =====
-- library_loader.c: filling a Python module with the types and the symbols of a C library. The table
-- of foreign types is an interface, `TypeTable`, which foreign_type.c fills. What liballocs and the
-- linker know of the library is a parameter.
pub mod Names
pub mod Types
pub mod Useful
pub mod Symbols
pub mod Bindings
pub mod Sections
pub mod Table
pub mod Handle
use pycallocs.Prelude.{
  ℕ, zero, suc, ◌+◌, ◌*◌, ◌≡◌, Bool, true, false, ◌&&◌, ◌||◌, not, Option, none, some, List, [],
  ◌∷◌, map, take, ◌==◌, if◌then◌else◌,
}
use pycallocs.BaseType.Types.{BaseUniqtype}

-- The bytes of a name.
abbrev pub Name : Type 0
Name = List ℕ

abbrev pub same_name : Name → Name → Bool
same_name [] [] = true
same_name [] (c ∷ cs) = false
same_name (b ∷ bs) [] = false
same_name (b ∷ bs) (c ∷ cs) = b == c && same_name bs cs

-- A type's name in the module: cut to 255 bytes, with _ for $.
abbrev pub plain_char : ℕ → ℕ
plain_char c = if c == b'$' then b'_' else c

unfoldable pub module_name : Name → Name
module_name name = map plain_char (take 255 name)

-- UNIQTYPE_KIND with the types that the loader goes on to: the members of a composite, the element
-- of an array or subrange, the ultimate pointee of an address, the results and arguments of a
-- function. 0 is NULL.
pub data Kind : Type 0 where
  void : Kind
  base : BaseUniqtype → Kind
  composite : List ℕ → Kind
  enumeration : Kind
  array : ℕ → Kind
  subrange : ℕ → Kind
  address : ℕ → Kind
  subprogram : List ℕ → Kind

-- ForeignType_GetOrCreate for the types `Known` to it: it gives the type if it handles it.
pub record TypeTable : Type 1 where
  pub State : Type 0
  pub get : ℕ → State → Option (State × Option ℕ)
  pub IsGood : State → Type 0
  pub Known : ℕ → Type 0
  pub handles : ℕ → Bool
  pub get_handled :
      (k : ℕ) (s : State)
      → Known k
      → IsGood s
      → (s' : State) × (get k s ≡ some (s', if handles k then some k else none)) × IsGood s'

-- An attribute of the module: a foreign type, or the Python object of a symbol.
pub data Item : Type 0 where
  type_item : ℕ → Item
  object : ℕ → Item

abbrev pub Attrs : Type 0
Attrs = Name → Option Item

-- PyModule_AddObject
abbrev pub set_attr : Name → Item → Attrs → Attrs
set_attr name item attrs other = if same_name name other then some item else attrs other

-- What add_type_to_module returns: 0, 1 or -1.
pub data Added : Type 0 where
  added : Added
  clash : Added
  refused : Added

-- The table of types and the module.
pub record Loading (State : Type 0) : Type 0 where
  pub table : State
  pub attrs : Attrs

module _ (types : TypeTable) (uniqtype_name : ℕ → Name) where
  abbrev pub Loader : Type 0
  Loader = Loading types.State

  -- add_type_to_module, behind ForeignType_GetOrCreate
  unfoldable pub add_created : ℕ → Attrs → Option (types.State × Option ℕ) → Option (Loader × Added)
  add_created k attrs none = none
  add_created k attrs (some (c, none)) = some (record { table = c; attrs = attrs }, refused)
  add_created k attrs (some (c, some t)) = some (
    record { table = c; attrs = set_attr (module_name (uniqtype_name k)) (type_item t) attrs },
    added,
  )

  unfoldable pub add_unless : ℕ → Loader → Option Item → Option (Loader × Added)
  unfolding add_created
  add_unless k s (some item) = some (s, clash)
  add_unless k s none = add_created k s.attrs (types.get k s.table)

  -- add_type_to_module
  unfoldable pub add_type : ℕ → Loader → Option (Loader × Added)
  unfolding add_unless module_name
  add_type k s = add_unless k s (s.attrs (module_name (uniqtype_name k)))

  unfoldable pub discard : Option (Loader × Added) → Option Loader
  discard none = none
  discard (some (s, a)) = some s

  unfoldable pub then_load : Option Loader → (Loader → Option Loader) → Option Loader
  then_load none f = none
  then_load (some s) f = f s

  unfoldable pub add_each : (ℕ → Loader → Option Loader) → List ℕ → Loader → Option Loader
  unfolding then_load
  add_each add [] s = some s
  add_each add (k ∷ ks) s = then_load (add k s) (add_each add ks)

  -- A composite's members are looked at only where the composite is new to the module.
  unfoldable pub add_members :
      (ℕ → Loader → Option Loader) → List ℕ → Option (Loader × Added) → Option Loader
  unfolding add_each
  add_members add ks none = none
  add_members add ks (some (s, added)) = add_each add ks s
  add_members add ks (some (s, clash)) = some s
  add_members add ks (some (s, refused)) = some s

  unfoldable pub add_kind : (ℕ → Loader → Option Loader) → ℕ → Loader → Kind → Option Loader
  unfolding discard add_type add_members
  add_kind add k s void = discard (add_type k s)
  add_kind add k s (base t) = if t.bit_size == 8 * t.size then discard (add_type k s) else some s
  add_kind add k s (composite ks) = add_members add ks (add_type k s)
  add_kind add k s enumeration = some s
  add_kind add k s (array j) = add j s
  add_kind add k s (subrange j) = add j s
  add_kind add k s (address j) = add j s
  add_kind add k s (subprogram ks) = add_each add ks s

  -- recursively_add_useful_types, with fuel for the depth of the recursion
  module _ (kinds : ℕ → Kind) where
    unfoldable pub add_useful : ℕ → ℕ → Loader → Option Loader
    unfolding add_kind
    add_useful zero k s = none
    add_useful (suc n) zero s = some s
    add_useful (suc n) (suc k) s = add_kind (add_useful n) (suc k) s (kinds (suc k))
