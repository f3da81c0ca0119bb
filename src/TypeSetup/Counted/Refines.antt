-- ===== src/TypeSetup/Counted/Refines.antt =====
-- The counts change nothing of what ForeignType_GetOrCreate does with its table.
use pycallocs.Prelude.{ℕ, zero, suc, ◌≡◌, refl, ap, ◌∙◌, Option, none, some, List, [], ◌∷◌}
use pycallocs.ForeignType.{
  Kind, void, base, composite, subprogram, address, array, enumeration, subrange, LookedIn,
  AllLookedIn, add_looked, get_next, get_all, init_types,
}
use pycallocs.TypeSetup.Objects.{ForeignTypeObject}
use pycallocs.TypeSetup.Typdict.{
  TypeEntry, ObjectTable, new_type, finish_object, create_object, look_up_object, get_object,
}
use pycallocs.TypeSetup.Counted.{
  Counted, settle, enter_object, change_object, finish_counted, create_counted, look_up_counted,
  get_counted,
}

abbrev pub uncounted : LookedIn Counted → LookedIn ObjectTable
uncounted none = none
uncounted (some (s, r)) = some (s.table, r)

abbrev all_uncounted : AllLookedIn Counted → AllLookedIn ObjectTable
all_uncounted none = none
all_uncounted (some (s, rs)) = some (s.table, rs)

add_looked-uncounted :
    (r : Option ℕ) (x : AllLookedIn Counted)
    → all_uncounted (add_looked r x) ≡ add_looked r (all_uncounted x)
unfolding add_looked
add_looked-uncounted r none = refl
add_looked-uncounted r (some (s, rs)) = refl

get_next-uncounted :
    (x : LookedIn Counted) (rest : Counted → AllLookedIn Counted)
    (rest' : ObjectTable → AllLookedIn ObjectTable)
    → ((s : Counted) → all_uncounted (rest s) ≡ rest' s.table)
    → all_uncounted (get_next x rest) ≡ get_next (uncounted x) rest'
unfolding get_next
get_next-uncounted none rest rest' h = refl
get_next-uncounted (some (s, r)) rest rest' h =
    add_looked-uncounted r (rest s) ∙ ap (add_looked r) (h s)

settle-table :
    (kind : Kind) (rs : List (Option ℕ)) (s : Counted) → (settle kind rs s).table ≡ s.table
unfolding settle
settle-table (array k) rs s = refl
settle-table void rs s = refl
settle-table (base t) rs s = refl
settle-table (composite ks) rs s = refl
settle-table subprogram rs s = refl
settle-table (address k) rs s = refl
settle-table enumeration rs s = refl
settle-table subrange rs s = refl

module _ (kinds : ℕ → Kind) (get : ℕ → Counted → LookedIn Counted)
    (get' : ℕ → ObjectTable → LookedIn ObjectTable)
    (same : (k : ℕ) (s : Counted) → uncounted (get k s) ≡ get' k s.table) where
  get_all-uncounted :
      (ks : List ℕ) (s : Counted) → all_uncounted (get_all get ks s) ≡ get_all get' ks s.table
  unfolding get_all
  get_all-uncounted [] s = refl
  get_all-uncounted (k ∷ ks) s =
      get_next-uncounted (get k s) (get_all get ks) (get_all get' ks) (get_all-uncounted ks)
      ∙ ap (λ (x : LookedIn ObjectTable). get_next x (get_all get' ks)) (same k s)

  finish_counted-uncounted :
      (k : ℕ) (o : ForeignTypeObject) (x : AllLookedIn Counted)
      → uncounted (finish_counted kinds k o x) ≡ finish_object kinds k o (all_uncounted x)
  unfolding finish_counted finish_object change_object
  finish_counted-uncounted k o none = refl
  finish_counted-uncounted k o (some (s, rs)) = rw (settle-table (kinds k) rs s) refl

  create_counted-uncounted :
      (k : ℕ) (s : Counted) (made : Option ForeignTypeObject)
      → uncounted (create_counted kinds get k s made) ≡ create_object kinds get' k s.table made
  unfolding create_counted create_object enter_object
  create_counted-uncounted k s none = refl
  create_counted-uncounted k s (some o) =
      finish_counted-uncounted k o _
      ∙ ap (finish_object kinds k o) (get_all-uncounted (init_types (kinds k)) _)

  look_up_counted-uncounted :
      (k : ℕ) (s : Counted) (found : Option TypeEntry)
      → uncounted (look_up_counted kinds get k s found) ≡ look_up_object kinds get' k s.table found
  unfolding look_up_counted look_up_object
  look_up_counted-uncounted k s none = create_counted-uncounted k s (new_type kinds k)
  look_up_counted-uncounted k s (some e) = refl

-- The tables are the same.
pub get_counted-get_object :
    (kinds : ℕ → Kind) (n k : ℕ) (s : Counted)
    → uncounted (get_counted kinds n k s) ≡ get_object kinds n k s.table
unfolding get_counted get_object
get_counted-get_object kinds zero k s = refl
get_counted-get_object kinds (suc n) k s =
    look_up_counted-uncounted kinds (get_counted kinds n) (get_object kinds n)
      (get_counted-get_object kinds n) k s (s.table k)
