-- ===== src/ForeignType.antt =====
-- foreign_type.c: the table of foreign types. `ForeignType_GetOrCreate` looks a uniqtype up by its
-- address, and creates what is missing in two phases, so that types may refer to each other in
-- circles. Reference counts, and the exceptions that go with NULL, are left out, so that the model
-- holds only while none is left set: CompositeProxy_InitType clears that of a member, but those of a
-- pointee or an array's items stay, and ForeignBaseType_New fails on them. A uniqtype's
-- address stands for the foreign type made of it, as there is one for each.
pub mod Table
pub mod Complete
pub mod Creation
pub mod Requests
pub mod Repeated
use pycallocs.Prelude.{
  ℕ, zero, suc, Bool, true, false, Option, none, some, List, [], ◌∷◌, Result, is_ok, ◌==◌,
  if◌then◌else◌,
}
use pycallocs.BaseType.Types.{BaseUniqtype, foreign_base_type_new}

-- UNIQTYPE_KIND, with the related types that the code reads: the members of a composite (none of
-- an incomplete one, without names), what an address points to (0 for NULL), and for an array
-- what `__liballocs_get_or_create_address_type` gives for its elements.
pub data Kind : Type 0 where
  void : Kind
  base : BaseUniqtype → Kind
  composite : List ℕ → Kind
  subprogram : Kind
  address : ℕ → Kind
  array : ℕ → Kind
  enumeration : Kind
  subrange : Kind

-- An entry of `typdict`: the foreign type after `ForeignType_New`, and after `ForeignType_Init` with
-- the types that it found.
pub data Entry : Type 0 where
  created : Entry
  initialised : List (Option ℕ) → Entry

-- `typdict`
abbrev pub Table : Type 0
Table = ℕ → Option Entry

-- PyDict_SetItem
abbrev pub set_item : ℕ → Entry → Table → Table
set_item k e c j = if j == k then some e else c j

-- The table behind a call, and the foreign type that it returns, if any.
abbrev pub LookedIn {ℓ} : Type ℓ → Type ℓ
LookedIn S = Option (S × Option ℕ)

abbrev pub AllLookedIn {ℓ} : Type ℓ → Type ℓ
AllLookedIn S = Option (S × List (Option ℕ))

abbrev pub Looked : Type 0
Looked = LookedIn Table

abbrev pub AllLooked : Type 0
AllLooked = AllLookedIn Table

-- A call for each of the types in turn; `none` is a call that does not end.
unfoldable pub add_looked {ℓ} : {S : Type ℓ} → Option ℕ → AllLookedIn S → AllLookedIn S
add_looked r none = none
add_looked r (some (c, rs)) = some (c, r ∷ rs)

unfoldable pub get_next {ℓ} : {S : Type ℓ} → LookedIn S → (S → AllLookedIn S) → AllLookedIn S
unfolding add_looked
get_next none rest = none
get_next (some (c, r)) rest = add_looked r (rest c)

unfoldable pub get_all {ℓ} : {S : Type ℓ} → (ℕ → S → LookedIn S) → List ℕ → S → AllLookedIn S
unfolding get_next
get_all get [] c = some (c, [])
get_all get (k ∷ ks) c = get_next (get k c) (get_all get ks)

-- Whether `ForeignType_New` creates a foreign type. AddressProxy_NewType refuses a pointer to NULL;
-- allocations and PyType_Ready are taken to succeed.
unfoldable pub creates : Kind → Bool
creates void = true
creates (base t) = is_ok (foreign_base_type_new t)
creates (composite ks) = true
creates subprogram = true
creates (address zero) = false
creates (address (suc k)) = true
creates (array k) = true
creates enumeration = false
creates subrange = false

-- The types that `ForeignType_Init` asks for: those of CompositeProxy_InitType,
-- AddressProxy_InitType and ArrayProxy_InitType.
unfoldable pub init_types : Kind → List ℕ
init_types (composite ks) = ks
init_types (address k) = k ∷ []
init_types (array k) = k ∷ []
init_types void = []
init_types (base t) = []
init_types subprogram = []
init_types enumeration = []
init_types subrange = []

-- The kinds of the uniqtypes, by their addresses.
module _ (kinds : ℕ → Kind) where
  -- ForeignType_New: false for NULL
  unfoldable pub foreign_type_new : ℕ → Bool
  unfolding creates
  foreign_type_new zero = false
  foreign_type_new (suc k) = creates (kinds (suc k))

  -- The end of ForeignType_Init
  unfoldable pub finish_type : ℕ → AllLooked → Looked
  finish_type k none = none
  finish_type k (some (c, rs)) = some (set_item k (initialised rs) c, some k)

  unfoldable pub create : (ℕ → Table → Looked) → ℕ → Table → Bool → Looked
  unfolding finish_type init_types get_all
  create get k c false = some (c, none)
  create get k c true = finish_type k (get_all get (init_types (kinds k)) (set_item k created c))

  unfoldable pub look_up : (ℕ → Table → Looked) → ℕ → Table → Option Entry → Looked
  unfolding create foreign_type_new
  look_up get k c (some e) = some (c, some k)
  look_up get k c none = create get k c (foreign_type_new k)

  -- ForeignType_GetOrCreate, with fuel for the depth of its recursion.
  unfoldable pub get_or_create : ℕ → ℕ → Table → Looked
  unfolding look_up
  get_or_create zero k c = none
  get_or_create (suc n) k c = look_up (get_or_create n) k c (c k)
