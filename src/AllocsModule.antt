-- ===== src/AllocsModule.antt =====
-- allocs_module.c: the initialisation of the module. It readies the classes, starts the registry, and
-- binds the classes and the basic C types to names. The results of PyModule_AddObject are not looked
-- at: one that is given NULL binds nothing and leaves an exception.
pub mod Bound
use Prim.Native.String.{String}
use pycallocs.Prelude.{
  ℕ, Bool, true, false, ◌&&◌, Option, none, some, List, [], ◌∷◌, ◌++◌, if◌then◌else◌,
}
use pycallocs.ForeignType.{Kind, Table, Looked, get_or_create}

-- The static type objects.
pub data Class : Type 0 where
  library_loader : Class
  proxy : Class
  foreign_type : Class
  function_proxy_metatype : Class
  composite_proxy_metatype : Class
  address_proxy_metatype : Class

-- The uniqtypes of the basic C types, by liballocs' names `__uniqtype__...`.
pub data BasicType : Type 0 where
  void : BasicType
  int : BasicType
  unsigned_int : BasicType
  signed_char : BasicType
  unsigned_char : BasicType
  long_int : BasicType
  unsigned_long_int : BasicType
  short_int : BasicType
  short_unsigned_int : BasicType
  float : BasicType
  double : BasicType

pub data Attribute : Type 0 where
  class_object : Class → Attribute
  type_object : ℕ → Attribute

-- A module: its attributes in the order in which they were bound, and whether an exception is set.
pub record Module : Type 0 where
  pub attrs : List (String × Attribute)
  pub failed : Bool

-- PyModule_AddObject
unfoldable pub add_object : String → Option Attribute → Module → Module
add_object n none m = record m { failed = true }
add_object n (some a) m = record m { attrs = m.attrs ++ ((n, a) ∷ []) }

abbrev pub classes : List (String × Class)
classes =
    ("LibraryLoader", library_loader)
    ∷ ("Proxy", proxy)
    ∷ ("ForeignType", foreign_type)
    ∷ ("FunctionProxyType", function_proxy_metatype)
    ∷ ("CompositeProxyType", composite_proxy_metatype)
    ∷ ("AddressProxyType", address_proxy_metatype)
    ∷ []

-- The ADD_TYPE lines; `char` is signed if `(char) -1 < 0`.
abbrev pub basic_types : Bool → List (String × BasicType)
basic_types char_is_signed =
    ("void", void)
    ∷ ("int", int)
    ∷ ("unsigned_int", unsigned_int)
    ∷ ("signed_char", signed_char)
    ∷ ("unsigned_char", unsigned_char)
    ∷ ("char", if char_is_signed then signed_char else unsigned_char)
    ∷ ("long_int", long_int)
    ∷ ("unsigned_long_int", unsigned_long_int)
    ∷ ("short_int", short_int)
    ∷ ("unsigned_short_int", short_unsigned_int)
    ∷ ("float", float)
    ∷ ("double", double)
    ∷ []

unfoldable pub add_classes : List (String × Class) → Module → Module
unfolding add_object
add_classes [] m = m
add_classes ((n, c) ∷ cs) m = add_classes cs (add_object n (some (class_object c)) m)

unfoldable pub as_attribute : Option ℕ → Option Attribute
as_attribute none = none
as_attribute (some k) = some (type_object k)

-- The module behind a type's line, with the table; none for a call that does not end.
unfoldable pub add_looked_up : String → Module → Looked → Option (Table × Module)
unfolding add_object as_attribute
add_looked_up n m none = none
add_looked_up n m (some (c, r)) = some (c, add_object n (as_attribute r) m)

unfoldable pub then_add :
    Option (Table × Module) → (Table → Module → Option (Table × Module)) → Option (Table × Module)
then_add none rest = none
then_add (some (c, m)) rest = rest c m

-- What Python answers: whether each class could be readied, and whether the module was created.
pub record Answers : Type 0 where
  pub ready : Class → Bool
  pub created : Bool

abbrev pub all_ready : Answers → Bool
all_ready a =
    a.ready library_loader
    && a.ready proxy
    && a.ready foreign_type
    && a.ready function_proxy_metatype
    && a.ready composite_proxy_metatype
    && a.ready address_proxy_metatype

-- What is there at the end: whether the registry was started, the table, and the module or NULL.
pub record Initialized : Type 0 where
  pub registry_started : Bool
  pub table : Table
  pub module_object : Option Module

unfoldable pub with_module : Option (Table × Module) → Option Initialized
with_module none = none
with_module (some (c, m)) =
    some (record { registry_started = true; table = c; module_object = some m })

module _ (kinds : ℕ → Kind) (uniqtype : BasicType → ℕ) (n : ℕ) where
  unfoldable pub add_types : List (String × BasicType) → Table → Module → Option (Table × Module)
  unfolding add_looked_up then_add
  add_types [] c m = some (c, m)
  add_types ((name, t) ∷ ts) c m =
      then_add (add_looked_up name m (get_or_create kinds n (uniqtype t) c)) (add_types ts)

  -- PyInit_allocs, with fuel for the creation of types
  unfoldable pub init_allocs : Answers → Bool → Table → Option Initialized
  unfolding add_types with_module add_classes
  init_allocs a char_is_signed c =
      if all_ready a
      then if a.created
        then with_module (
            add_types (basic_types char_is_signed) c
              (add_classes classes (record { attrs = []; failed = false })))
        else some (record { registry_started = true; table = c; module_object = none })
      else some (record { registry_started = false; table = c; module_object = none })
