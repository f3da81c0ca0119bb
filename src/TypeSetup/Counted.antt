-- ===== src/TypeSetup/Counted.antt =====
-- The reference counts of foreign types in ForeignType_GetOrCreate of foreign_type.c, and in the
-- initialisations that it calls: those of composite_proxy.c and address_proxy.c keep the references
-- that they are given, ArrayProxy_InitType drops its one. `holds` has an entry for each reference that
-- `typdict` and the proxy types hold.
pub mod Balance
pub mod Refines
pub mod Ends
use pycallocs.Prelude.{
  ℕ, zero, suc, ◌+◌, ◌-◌, Option, none, some, List, [], ◌∷◌, ◌==◌, if◌then◌else◌,
}
use pycallocs.ForeignType.{
  Kind, void, base, composite, subprogram, address, array, enumeration, subrange, created,
  initialised, LookedIn, AllLookedIn, get_all, init_types,
}
use pycallocs.TypeSetup.Objects.{ForeignTypeObject, init_object}
use pycallocs.TypeSetup.Typdict.{TypeEntry, ObjectTable, set_object, first_object, new_type}

pub record Counted : Type 0 where
  pub table : ObjectTable
  pub refs : ℕ → ℕ
  pub holds : List ℕ

abbrev pub plus_ref : ℕ → (ℕ → ℕ) → ℕ → ℕ
plus_ref k refs j = if j == k then refs j + 1 else refs j

abbrev pub minus_ref : ℕ → (ℕ → ℕ) → ℕ → ℕ
minus_ref k refs j = if j == k then refs j - 1 else refs j

abbrev pub first_ref : ℕ → (ℕ → ℕ) → ℕ → ℕ
first_ref k refs j = if j == k then 1 else refs j

-- A proxy type keeps the references of its fields' types, or of its pointee's.
abbrev pub keep_all : List (Option ℕ) → List ℕ → List ℕ
keep_all [] holds = holds
keep_all (none ∷ rs) holds = keep_all rs holds
keep_all (some j ∷ rs) holds = j ∷ keep_all rs holds

-- Py_DECREF of what was asked for
abbrev pub drop_all : List (Option ℕ) → (ℕ → ℕ) → ℕ → ℕ
drop_all [] refs = refs
drop_all (none ∷ rs) refs = drop_all rs refs
drop_all (some j ∷ rs) refs = drop_all rs (minus_ref j refs)

-- What an initialisation does with the references that it was given.
unfoldable pub settle : Kind → List (Option ℕ) → Counted → Counted
settle (array k) rs s = record s { refs = drop_all rs s.refs }
settle void rs s = record s { holds = keep_all rs s.holds }
settle (base t) rs s = record s { holds = keep_all rs s.holds }
settle (composite ks) rs s = record s { holds = keep_all rs s.holds }
settle subprogram rs s = record s { holds = keep_all rs s.holds }
settle (address k) rs s = record s { holds = keep_all rs s.holds }
settle enumeration rs s = record s { holds = keep_all rs s.holds }
settle subrange rs s = record s { holds = keep_all rs s.holds }

-- PyObject_New and PyDict_SetItem
unfoldable pub enter_object : ℕ → ForeignTypeObject → Counted → Counted
enter_object k o s = record {
  table = set_object k (record { object = o; entry = created }) s.table;
  refs = plus_ref k (first_ref k s.refs);
  holds = k ∷ s.holds;
}

unfoldable pub change_object : ℕ → TypeEntry → Counted → Counted
change_object k e s = record s { table = set_object k e s.table }

module _ (kinds : ℕ → Kind) where
  -- The end of ForeignType_Init
  unfoldable pub finish_counted : ℕ → ForeignTypeObject → AllLookedIn Counted → LookedIn Counted
  unfolding settle change_object
  finish_counted k o none = none
  finish_counted k o (some (s, rs)) =
      let e : TypeEntry = record {
        object = init_object o (first_object rs s.table) (kinds k);
        entry = initialised rs;
      } in
      some (change_object k e (settle (kinds k) rs s), some k)

  unfoldable pub create_counted :
      (ℕ → Counted → LookedIn Counted) → ℕ → Counted → Option ForeignTypeObject → LookedIn Counted
  unfolding finish_counted enter_object
  create_counted get k s none = some (s, none)
  create_counted get k s (some o) =
      finish_counted k o (get_all get (init_types (kinds k)) (enter_object k o s))

  unfoldable pub look_up_counted :
      (ℕ → Counted → LookedIn Counted) → ℕ → Counted → Option TypeEntry → LookedIn Counted
  unfolding create_counted
  look_up_counted get k s (some e) = some (record s { refs = plus_ref k s.refs }, some k)
  look_up_counted get k s none = create_counted get k s (new_type kinds k)

  -- ForeignType_GetOrCreate, with fuel for the depth of its recursion
  unfoldable pub get_counted : ℕ → ℕ → Counted → LookedIn Counted
  unfolding look_up_counted
  get_counted zero k s = none
  get_counted (suc n) k s = look_up_counted (get_counted n) k s (s.table k)
