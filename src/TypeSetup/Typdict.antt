-- ===== src/TypeSetup/Typdict.antt =====
-- `typdict` of foreign_type.c with the foreign type objects in it: ForeignType_GetOrCreate as ForeignType
-- describes it, with the objects that ForeignType_New makes and ForeignType_Init changes.
pub mod Refines
pub mod Made
pub mod Good
pub mod Conform
use pycallocs.Prelude.{ℕ, zero, suc, Option, none, some, List, [], ◌∷◌, ◌==◌, if◌then◌else◌}
use pycallocs.ForeignType.{
  Kind, Entry, created, initialised, LookedIn, AllLookedIn, get_all, init_types,
}
use pycallocs.TypeSetup.Objects.{ForeignTypeObject, new_object, init_object}

-- An entry: the object, and what ForeignType_Init found for it.
pub record TypeEntry : Type 0 where
  pub object : ForeignTypeObject
  pub entry : Entry

abbrev pub ObjectTable : Type 0
ObjectTable = ℕ → Option TypeEntry

-- PyDict_SetItem, or a change of the object that is there
abbrev pub set_object : ℕ → TypeEntry → ObjectTable → ObjectTable
set_object k e c j = if j == k then some e else c j

abbrev pub object_of : Option TypeEntry → Option ForeignTypeObject
object_of none = none
object_of (some e) = some e.object

-- The foreign type that ArrayProxy_InitType asked for
abbrev pub first_object : List (Option ℕ) → ObjectTable → Option ForeignTypeObject
first_object [] c = none
first_object (none ∷ rs) c = none
first_object (some j ∷ rs) c = object_of (c j)

module _ (kinds : ℕ → Kind) where
  -- ForeignType_New; the number of a uniqtype stands for its proxy type.
  unfoldable pub new_type : ℕ → Option ForeignTypeObject
  unfolding new_object
  new_type zero = none
  new_type (suc k) = new_object (kinds (suc k)) (suc k)

  -- The end of ForeignType_Init
  unfoldable pub finish_object :
      ℕ → ForeignTypeObject → AllLookedIn ObjectTable → LookedIn ObjectTable
  unfolding init_object
  finish_object k o none = none
  finish_object k o (some (c, rs)) =
      let e : TypeEntry = record {
        object = init_object o (first_object rs c) (kinds k);
        entry = initialised rs;
      } in
      some (set_object k e c, some k)

  unfoldable pub create_object :
      (ℕ → ObjectTable → LookedIn ObjectTable)
      → ℕ
      → ObjectTable
      → Option ForeignTypeObject
      → LookedIn ObjectTable
  unfolding finish_object get_all init_types
  create_object get k c none = some (c, none)
  create_object get k c (some o) =
      finish_object k o (
        get_all get (init_types (kinds k))
          (set_object k (record { object = o; entry = created }) c))

  unfoldable pub look_up_object :
      (ℕ → ObjectTable → LookedIn ObjectTable)
      → ℕ
      → ObjectTable
      → Option TypeEntry
      → LookedIn ObjectTable
  unfolding create_object new_type
  look_up_object get k c (some e) = some (c, some k)
  look_up_object get k c none = create_object get k c (new_type k)

  -- ForeignType_GetOrCreate, with fuel for the depth of its recursion
  unfoldable pub get_object : ℕ → ℕ → ObjectTable → LookedIn ObjectTable
  unfolding look_up_object
  get_object zero k c = none
  get_object (suc n) k c = look_up_object (get_object n) k c (c k)
